-- ===== src/Tests/Settings.antt =====
-- The settings on top of a storage in memory, and on top of the storage service.
use rzi.Prelude.{
  ℕ, ◌≡◌, refl, Bool, true, false, ◌&&◌, List, [], ◌∷◌, ℤ, pos, length, eq_bytes, if◌then◌else◌,
  ◌==◌, Option, none, some, arith, codes,
}
use rzi.Err.{Err, fail}
use rzi.Settings.{
  StorageApi, Settings, forget, rzi_namespace, zeros, setting_read, setting_write, settings_clear,
  default_value,
}
use rzi.Settings.Cache.{IsValid}
use rzi.Settings.Runs.{read_call, write_call, Call, started, run_calls}
use rzi.Settings.Persistent.{
  storage_api, storage_api-IsStorage, persistent-IsValid, restart-setting_read,
}
use rzi.Storage.{
  Storage, valid_component, build_name, init, read, write, encode_record, decode_record,
  write_record, read_record,
}
use rzi.Err.{err_from_errno}
use rzi.Power.{lock_get, lock_put, initial}
use rzi.Tests.Storage.{
  entries_kernel, config, fresh, entries_kernel-IsSettings, entries_kernel-IsRecordStore,
  entries_kernel-IsByteOrder,
}

-- An entry has a namespace, a key, a version (0 for a plain value), and the bytes.
abbrev Entry : Type 0
Entry = List ℕ × List ℕ × ℕ × List ℕ

abbrev lookup : List ℕ → List ℕ → List Entry → Option (ℕ × List ℕ)
lookup namespace key [] = none
lookup namespace key ((n, k, version, v) ∷ es) =
    if eq_bytes n namespace && eq_bytes k key then some (version, v) else lookup namespace key es

abbrev picked : ℕ → Option (ℕ × List ℕ) → ℤ × ℕ × List ℕ
picked n none = (fail Err.not_found, 0, zeros n)
picked n (some (version, v)) =
    if length v == n then (pos 0, version, v) else (fail Err.not_found, 0, zeros n)

abbrev get : List ℕ → List ℕ → ℕ → List Entry → ℤ × ℕ × List ℕ
get namespace key n es = picked n (lookup namespace key es)

abbrev remove : List ℕ → List ℕ → List Entry → List Entry
remove namespace key [] = []
remove namespace key ((n, k, version, v) ∷ es) =
    if eq_bytes n namespace && eq_bytes k key
    then remove namespace key es
    else (n, k, version, v) ∷ remove namespace key es

-- One key cannot be deleted.
abbrev memory : List ℕ → StorageApi
memory stuck = record {
  S = List Entry;
  read = λ namespace key n s. let (rc, _, v) = get namespace key n s in (rc, v, s);
  write = λ namespace key v s. (pos 0, (namespace, key, 0, v) ∷ s);
  delete = λ namespace key s.
      if eq_bytes key stuck then (fail Err.io, s) else (pos 0, remove namespace key s);
  write_record = λ namespace key version v s. (pos 0, (namespace, key, version, v) ∷ s);
  read_record =
      λ namespace key n s. let (rc, version, v) = get namespace key n s in (rc, version, v, s);
}

abbrev pub ram : StorageApi
ram = memory []

-- An older policy: joining is automatic, every 9 seconds.
abbrev pub older : List Entry
older =
    (rzi_namespace, codes "autojoin", 0, 1 ∷ [])
    ∷ (rzi_namespace, codes "join_interval", 0, 9 ∷ [])
    ∷ []

migrates : (setting_read ram true (codes "join_policy") 3 (started ram older)).1 ≡ 1 ∷ 9 ∷ 0 ∷ []
unfolding setting_read default_value
migrates = refl

refuses :
    (setting_write ram true (codes "region") (11 ∷ []) (started ram older)).0 ≡ fail Err.invalid
unfolding setting_write
refuses = refl

-- The same policy as the storage service keeps it.
abbrev pub device : Storage entries_kernel config
device = record fresh {
  store = (codes "rzi/autojoin", 1 ∷ []) ∷ (codes "rzi/join_interval", 9 ∷ []) ∷ [];
}

-- It is migrated, then a region is chosen.
abbrev pub some_calls : List Call
some_calls = read_call (codes "join_policy") 3 ∷ write_call (codes "region") (5 ∷ []) ∷ []

abbrev pub persistent : StorageApi
persistent = storage_api entries_kernel config

persistent-IsValid_example :
    IsValid persistent
      (storage_api-IsStorage entries_kernel config entries_kernel-IsSettings
        entries_kernel-IsRecordStore entries_kernel-IsByteOrder
        (omega arith))
      (run_calls persistent some_calls (started persistent device))
persistent-IsValid_example =
    persistent-IsValid entries_kernel config entries_kernel-IsSettings entries_kernel-IsRecordStore
      entries_kernel-IsByteOrder (omega arith) some_calls device

abbrev chosen : ℤ × Settings persistent true
chosen =
    setting_write persistent true (codes "region") (5 ∷ [])
      (run_calls persistent some_calls (started persistent device))

chosen_ok : chosen.0 ≡ pos 0
unfolding run_calls setting_write setting_read read write read_record write_record encode_record
    decode_record init build_name valid_component lock_get lock_put initial err_from_errno
    default_value
chosen_ok = refl

restart-setting_read_example :
    let (code, w, found, _) = setting_read persistent true (codes "region") 1 (record {
      settings = forget persistent true chosen.1.settings;
      storage = chosen.1.storage;
    }) in
    (code ≡ pos 0) × (w ≡ 5 ∷ []) × (found ≡ true)
restart-setting_read_example =
    restart-setting_read entries_kernel config entries_kernel-IsSettings
      entries_kernel-IsRecordStore entries_kernel-IsByteOrder (omega arith) some_calls device
      (codes "region") (5 ∷ []) chosen_ok

-- The deletion of "region" fails and the one of "rety" succeeds; the same "rety" is then not written.
abbrev stuck : StorageApi
stuck = memory (codes "region")

abbrev lost : ℤ × List ℕ × Bool × Settings stuck true
lost =
    let c = (setting_write stuck true (codes "rety") (3 ∷ []) (started stuck [])).1 in
    let (_, cleared) = settings_clear stuck true c in
    let (_, again) = setting_write stuck true (codes "rety") (3 ∷ []) cleared in
    setting_read stuck true (codes "rety") 1
      (record again { settings = forget stuck true again.settings })

failed_clear : (settings_clear stuck true (started stuck [])).0 ≡ fail Err.io
unfolding settings_clear
failed_clear = refl

is_lost : (lost.0 ≡ pos 0) × (lost.1 ≡ 0 ∷ []) × (lost.2 ≡ false)
unfolding setting_read setting_write settings_clear default_value
is_lost = (refl, refl, refl)
