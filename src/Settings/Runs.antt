-- ===== src/Settings/Runs.antt =====
-- The settings over sequences of calls from an empty cache.
use rzi.Prelude.{◌≡◌, ℕ, refl, inl, true, List, [], ◌∷◌, pos, length}
use rzi.Settings.{
  StorageApi, Schema, Settings, table, unloaded, forget, setting_read, setting_write,
}
use rzi.Settings.Coherence.{IsStorage, AllCoherent}
use rzi.Settings.Loading.{is_sized}
use rzi.Settings.Cache.{all_sized, IsValid, setting_read-IsValid, setting_write-IsValid}
use rzi.Settings.Durability.{setting_write-setting_read}

-- The calls of the other components.
pub data Call : Type 0 where
  read_call : List ℕ → ℕ → Call
  write_call : List ℕ → List ℕ → Call

module _ (a : StorageApi) where
  -- The cache of a device that has just started.
  abbrev pub started : a.S → Settings a true
  started s = record { settings = unloaded table; storage = s }

  unfoldable pub run_calls : List Call → Settings a true → Settings a true
  run_calls [] c = c
  run_calls (read_call key size ∷ calls) c = run_calls calls (setting_read a true key size c).3
  run_calls (write_call key value ∷ calls) c = run_calls calls (setting_write a true key value c).1

  module _ (law : IsStorage a) where
    unloaded-AllCoherent : (xs : List Schema) (s : a.S) → AllCoherent a law (unloaded xs) s
    unloaded-AllCoherent [] s = tt
    unloaded-AllCoherent (x ∷ xs) s = (inl refl, unloaded-AllCoherent xs s)

    started-IsValid : (s : a.S) → IsValid a law (started s)
    unfolding all_sized is_sized
    started-IsValid s = (refl, unloaded-AllCoherent table s)

    calls-IsValid :
        (calls : List Call) (c : Settings a true)
        → IsValid a law c
        → IsValid a law (run_calls calls c)
    unfolding run_calls
    calls-IsValid [] c ok = ok
    calls-IsValid (read_call key size ∷ calls) c ok =
        calls-IsValid calls (setting_read a true key size c).3
          (setting_read-IsValid a law key size c ok)
    calls-IsValid (write_call key value ∷ calls) c ok =
        calls-IsValid calls (setting_write a true key value c).1
          (setting_write-IsValid a law key value c ok)

    -- From a start, whatever is stored then and after any sequence of reads and writes, of which any
    -- may fail, every cached value that counts as present is the one that is stored under its own
    -- key, and every size suits its kind.
    pub run_calls-IsValid :
        (calls : List Call) (s : a.S) → IsValid a law (run_calls calls (started s))
    run_calls-IsValid calls s = calls-IsValid calls (started s) (started-IsValid s)

    -- From a start and after any sequence of reads and writes, when a write succeeds, then after a
    -- restart (an empty cache over the same storage) a read of the same key and size succeeds and
    -- finds the value that was written, whether the write stored it or found it in the cache.
    pub run_calls-setting_read :
        (calls : List Call) (s : a.S) (key v : List ℕ)
        → (setting_write a true key v (run_calls calls (started s))).0 ≡ pos 0
        → let c = (setting_write a true key v (run_calls calls (started s))).1 in
          let (code, w, found, _) =
            setting_read a true key (length v) (record c { settings = forget a true c.settings }) in
          (code ≡ pos 0) × (w ≡ v) × (found ≡ true)
    run_calls-setting_read calls s key v =
        setting_write-setting_read a law key v (run_calls calls (started s))
          (run_calls-IsValid calls s)
