-- ===== src/Credentials/Durable.antt =====
-- The credentials on top of the settings and of the storage behind them.
use rzi.Prelude.{
  ℕ, ◌≡◌, ◌≤◌, sym, ap, Bool, true, false, List, [], ◌∷◌, ℤ, pos, some, is_zero, if◌then◌else◌,
}
use rzi.Settings.{StorageApi, Settings, setting_read, setting_write, settings_clear, forget}
use rzi.Settings.Coherence.{IsStorage}
use rzi.Settings.Cache.{IsValid, setting_read-IsValid}
use rzi.Settings.Durability.{setting_write-setting_read}
use rzi.Settings.Runs.{Call, started, run_calls, run_calls-IsValid}
use rzi.Settings.Persistent.{storage_api, storage_api-IsStorage}
use rzi.Settings.Persistent.Reads.{IsRecordStore}
use rzi.Storage.{Kernel, Config, Storage}
use rzi.Storage.Values.{IsSettings}
use rzi.Storage.Records.{IsByteOrder}
use rzi.Credentials.{SettingsApi, Store, Credentials, ensure_loaded, read_all, loads, candidate}
use rzi.Credentials.Access.{Field, field_key, field_size, set_bytes}
use rzi.Credentials.Stored.{set_bytes-guarded_write}

-- The settings of lorawan_settings.c as what the credentials use.
abbrev pub settings_api : StorageApi → SettingsApi
settings_api a = record {
  C = Settings a true;
  setting_read = setting_read a true;
  setting_write = setting_write a true;
  settings_clear = settings_clear a true;
}

module _ (a : StorageApi) (law : IsStorage a) where
  either-IsValid :
      {A : Type 0} (b : Bool) (p q : ℤ × A × Settings a true)
      → IsValid a law p.2
      → IsValid a law q.2
      → IsValid a law (if b then p else q).2
  either-IsValid true p q f g = f
  either-IsValid false p q f g = g

  read_all-IsValid :
      (xs : List (List ℕ × ℕ)) (c : Settings a true)
      → IsValid a law c
      → IsValid a law (read_all (settings_api a) xs c).2
  unfolding read_all
  read_all-IsValid [] c ok = ok
  read_all-IsValid ((key, size) ∷ xs) c ok =
      let (rc, v, found, c') = setting_read a true key size c in
      let (rc', vs, c'') = read_all (settings_api a) xs c' in
      let first = setting_read-IsValid a law key size c ok in
      either-IsValid (is_zero rc) (rc', (v, found) ∷ vs, c'') (rc, [], c')
        (read_all-IsValid xs c' first) first

  either_credentials-IsValid :
      (b : Bool) (p q : ℤ × Credentials (settings_api a))
      → IsValid a law p.1.settings
      → IsValid a law q.1.settings
      → IsValid a law (if b then p else q).1.settings
  either_credentials-IsValid true p q f g = f
  either_credentials-IsValid false p q f g = g

  ensure_loaded-IsValid :
      (s : Credentials (settings_api a))
      → IsValid a law s.settings
      → IsValid a law (ensure_loaded (settings_api a) s).1.settings
  unfolding ensure_loaded
  ensure_loaded-IsValid s ok =
      let (rc, vs, c) = read_all (settings_api a) loads s.settings in
      let read = read_all-IsValid loads s.settings ok in
      either_credentials-IsValid s.store.loaded (pos 0, s) _ ok
        (either_credentials-IsValid (is_zero rc)
          (pos 0, record { store = candidate vs s.store.join_active; settings = c })
          (rc, record s { settings = c }) read read)

  -- A credential that is set over coherent settings is found after a restart.
  pub set_bytes-setting_read :
      (f : Field) (v : List ℕ) (s : Credentials (settings_api a))
      → IsValid a law s.settings
      → (set_bytes (settings_api a) false f (some v) s).0 ≡ pos 0
      → let c = (set_bytes (settings_api a) false f (some v) s).1.settings in
        let (rc, w, found, _) =
          setting_read a true
            (field_key f)
            (field_size f)
            (record c { settings = forget a true c.settings }) in
        (rc ≡ pos 0) × (w ≡ v) × (found ≡ true)
  set_bytes-setting_read f v s valid ok =
      let (_, size, written, _, _) = set_bytes-guarded_write (settings_api a) f v s ok in
      let c = (ensure_loaded (settings_api a) s).1.settings in
      let kept =
        setting_write-setting_read a law (field_key f) v c (ensure_loaded-IsValid s valid)
          (ap (λ r. r.0) written) in
      rw (sym size, sym (ap (λ r. r.1) written)) kept

module _ (k : Kernel) (config : Config) (law : IsSettings k) (apart : IsRecordStore k)
    (order : IsByteOrder k) (limit : config.record_max_size ≤ 2048) where
  -- From a start of the LoRaWAN settings over the storage service and after any sequence of reads
  -- and writes of settings, when a credential is set by a store of credentials in any state, then
  -- after a restart, when nothing is cached, reading the credential's setting from the storage
  -- service succeeds and finds the value.
  pub restart-set_bytes :
      (calls : List Call) (s : Storage k config) (f : Field) (v : List ℕ) (store : Store)
      → let a = storage_api k config in
        let c : Credentials (settings_api a) = record {
          store = store;
          settings = run_calls a calls (started a s);
        } in
        (set_bytes (settings_api a) false f (some v) c).0 ≡ pos 0
        → let c' = (set_bytes (settings_api a) false f (some v) c).1.settings in
          let (rc, w, found, _) =
            setting_read a true
              (field_key f)
              (field_size f)
              (record c' { settings = forget a true c'.settings }) in
          (rc ≡ pos 0) × (w ≡ v) × (found ≡ true)
  restart-set_bytes calls s f v store ok =
      let a = storage_api k config in
      let stored = storage_api-IsStorage k config law apart order limit in
      set_bytes-setting_read a stored f v
        (record { store = store; settings = run_calls a calls (started a s) })
        (run_calls-IsValid a stored calls s) ok
