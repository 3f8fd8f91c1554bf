-- ===== src/Storage.antt =====
-- src/storage/storage_settings.c: namespaced values over Zephyr's settings subsystem.
-- Settings, the byte order helpers and the CRC are Zephyr's: they are the fields of `Kernel`, which
-- every function takes. `settings_load_one` gives its result and the bytes that it copied. All work
-- is done under `storage_lock`, so a call is one step. Statistics (`rzi_storage_get_info`) are not
-- modelled.
pub mod Names
pub mod Values
pub mod Records
use rzi.Prelude.{
  ℕ, zero, suc, ◌+◌, ◌-◌, ◌%◌, ◌^◌, Bool, true, false, not, ◌&&◌, ◌||◌, List, [], ◌∷◌, ◌++◌, ℤ, pos,
  negsuc, Option, none, some, length, get_or, take, drop, ltb, leb, ◌==◌, ◌==ℤ◌, if◌then◌else◌,
  is_zero, is_null, is_negative,
}
use rzi.Err.{Err, fail, Errno, err_from_errno}
use rzi.Power.{Power, lock_get, lock_put, lock_flash}

-- What the storage service calls.
pub record Kernel : Type 1 where
  pub Store : Type 0
  pub errno : Errno
  pub settings_subsys_init : Store → ℤ × Store
  pub settings_load_one : Store → List ℕ → ℕ → ℤ × List ℕ
  pub settings_save_one : Store → List ℕ → List ℕ → ℤ × Store
  pub settings_get_val_len : Store → List ℕ → ℤ
  pub settings_delete : Store → List ℕ → ℤ × Store
  pub put_le16 : ℕ → List ℕ
  pub put_le32 : ℕ → List ℕ
  pub get_le16 : List ℕ → ℕ
  pub get_le32 : List ℕ → ℕ
  pub crc32_ieee : List ℕ → ℕ
  pub crc32_ieee_update : ℕ → List ℕ → ℕ

-- CONFIG_RZI_STORAGE_RECORD_MAX_SIZE (16 to 2048), and whether CONFIG_RZI_POWER and
-- CONFIG_RZI_POWER_AUTO_SERVICE_LOCK are both set.
pub record Config : Type 0 where
  pub record_max_size : ℕ
  pub auto_lock : Bool

abbrev pub slash : ℕ
slash = b'/'

-- `strstr(component, "//") != NULL`.
abbrev pub has_double_slash : List ℕ → Bool
has_double_slash [] = false
has_double_slash (c ∷ []) = false
has_double_slash (c ∷ d ∷ cs) = (c == slash) && (d == slash) || has_double_slash (d ∷ cs)

-- `component[length - 1] == '/'`.
abbrev pub ends_in_slash : List ℕ → Bool
ends_in_slash [] = false
ends_in_slash (c ∷ []) = c == slash
ends_in_slash (c ∷ d ∷ cs) = ends_in_slash (d ∷ cs)

unfoldable pub valid_component : Option (List ℕ) → Bool
valid_component none = false
valid_component (some []) = false
valid_component (some (c ∷ cs)) =
    not (c == slash) && (not (ends_in_slash (c ∷ cs)) && not (has_double_slash (c ∷ cs)))

abbrev pub name_max : ℕ
name_max = 64

abbrev pub text_of : Option (List ℕ) → List ℕ
text_of none = []
text_of (some t) = t

-- `build_name`: the code, and the name that is written.
unfoldable pub build_name : Option (List ℕ) → Option (List ℕ) → ℤ × List ℕ
unfolding valid_component
build_name namespace key =
    let name = text_of namespace ++ (slash ∷ text_of key) in
    if not (valid_component namespace) || not (valid_component key)
    then (fail Err.invalid, [])
    else if leb name_max (length name)
    then (fail Err.too_large, take (name_max - 1) name)
    else (pos 0, name)

-- A caller's buffer of `size` bytes, NULL or not, as the checks see it.
abbrev no_buffer : Option (List ℕ) → Bool
no_buffer none = true
no_buffer (some v) = length v == 0

abbrev pub record_header_size : ℕ
record_header_size = 12

abbrev pub record_magic : ℕ
record_magic = 0x31525a52

module _ (k : Kernel) (config : Config) where
  open k use {
    Store, errno, settings_subsys_init, settings_load_one, settings_save_one, settings_get_val_len,
    settings_delete, put_le16, put_le32, get_le16, get_le32, crc32_ieee, crc32_ieee_update,
  }

  -- The static of the file, the settings' state, and the power service that `write` locks.
  pub record Storage : Type 0 where
    pub initialized : Bool
    pub store : Store
    pub power : Power

  unfoldable pub init : Bool → Storage → ℤ × Storage
  init isr s =
      if isr
      then (fail Err.isr, s)
      else if s.initialized
      then (pos 0, s)
      else let (rc, store) = settings_subsys_init s.store in
        (
          if is_zero rc then pos 0 else err_from_errno errno rc,
          record s { store = store; initialized = is_zero rc },
        )

  -- `rzi_storage_read` into a buffer of `size` bytes: the code, and the bytes copied there.
  unfoldable pub read :
      Bool → Option (List ℕ) → Option (List ℕ) → Bool → ℕ → Storage → ℤ × List ℕ × Storage
  read isr namespace key null size s =
      if null || (size == 0)
      then (fail Err.invalid, [], s)
      else let (rc, name) = build_name namespace key in
        let (rc', s') = init isr s in
        let (bytes, value) = settings_load_one s'.store name size in
        if not (is_zero rc)
        then (rc, [], s)
        else if not (is_zero rc')
        then (rc', [], s')
        else if is_negative bytes
        then (err_from_errno errno bytes, value, s')
        else if is_zero bytes
        then (fail Err.not_found, value, s')
        else if bytes ==ℤ pos size
        then (pos 0, value, s')
        else (fail Err.too_large, value, s')

  -- The lock that a write takes, when the build has one.
  abbrev pub flash_get : Storage → ℤ × Storage
  flash_get s =
      if config.auto_lock
      then (let (rc, p) = lock_get false lock_flash s.power in (rc, record s { power = p }))
      else (pos 0, s)

  abbrev pub flash_put : Storage → Storage
  flash_put s =
      if config.auto_lock then record s { power = (lock_put false lock_flash s.power).1 } else s

  -- `rzi_storage_write`; `value` is `none` for NULL, and has the length `size`.
  unfoldable pub write :
      Bool → Option (List ℕ) → Option (List ℕ) → Option (List ℕ) → Storage → ℤ × Storage
  write isr namespace key value s =
      let (rc, name) = build_name namespace key in
      let (rc', s') = init isr s in
      let (rc'', s'') = flash_get s' in
      let (rc3, store) = settings_save_one s''.store name (text_of value) in
      if no_buffer value
      then (fail Err.invalid, s)
      else if not (is_zero rc)
      then (rc, s)
      else if not (is_zero rc')
      then (rc', s')
      else if not (is_zero rc'')
      then (rc'', s'')
      else (err_from_errno errno rc3, flash_put (record s'' { store = store }))

  -- What `rzi_storage_delete` does under its locks.
  abbrev pub delete_locked : List ℕ → Storage → ℤ × Storage
  delete_locked name s =
      let stored_size = settings_get_val_len s.store name in
      let (rc, store) = settings_delete s.store name in
      if is_negative stored_size
      then (stored_size, s)
      else if is_zero stored_size
      then (negsuc (errno.enoent - 1), s)
      else (rc, record s { store = store })

  unfoldable pub delete : Bool → Option (List ℕ) → Option (List ℕ) → Storage → ℤ × Storage
  delete isr namespace key s =
      let (rc, name) = build_name namespace key in
      let (rc', s') = init isr s in
      let (rc'', s'') = flash_get s' in
      let (rc3, t) = delete_locked name s'' in
      if not (is_zero rc)
      then (rc, s)
      else if not (is_zero rc')
      then (rc', s')
      else if not (is_zero rc'')
      then (rc'', s'')
      else (err_from_errno errno rc3, flash_put t)

  -- `record_crc`, of the first eight bytes and the payload.
  abbrev pub record_crc : List ℕ → List ℕ → ℕ
  record_crc head payload = crc32_ieee_update (crc32_ieee head) payload

  -- The eight bytes that precede the CRC: magic, version and size (cast to 16 bits).
  abbrev pub record_head : ℕ → List ℕ → List ℕ
  record_head version value =
      put_le32 record_magic ++ (put_le16 version ++ put_le16 (length value % 2 ^ 16))

  -- The bytes of a record.
  unfoldable pub encode_record : ℕ → List ℕ → List ℕ
  encode_record version value =
      record_head version value
      ++ (put_le32 (record_crc (record_head version value) value) ++ value)

  unfoldable pub write_record :
      Bool → Option (List ℕ) → Option (List ℕ) → ℕ → Option (List ℕ) → Storage → ℤ × Storage
  write_record isr namespace key version value s =
      if isr
      then (fail Err.isr, s)
      else if (version == 0) || no_buffer value
      then (fail Err.invalid, s)
      else if ltb config.record_max_size (length (text_of value))
      then (fail Err.too_large, s)
      else write isr namespace key (some (encode_record version (text_of value))) s

  -- The checks of `rzi_storage_read_record` on the bytes that were loaded, `length` of them: the
  -- code, the version and the payload.
  unfoldable pub decode_record : List ℕ → ℕ → ℤ × ℕ × List ℕ
  decode_record bytes capacity =
      let n = length bytes in
      let payload_size = get_le16 (take 2 (drop 6 bytes)) in
      let payload = take payload_size (drop record_header_size bytes) in
      let version = get_le16 (take 2 (drop 4 bytes)) in
      if leb n record_header_size
        || (not (get_le32 (take 4 bytes) == record_magic) || (version == 0))
      then (fail Err.bad_message, 0, [])
      else if not (payload_size == n - record_header_size)
          || not (get_le32 (take 4 (drop 8 bytes)) == record_crc (take 8 bytes) payload)
      then (fail Err.bad_message, 0, [])
      else if ltb capacity payload_size
      then (fail Err.too_large, 0, [])
      else (pos 0, version, payload)

  -- What `rzi_storage_read_record` loads under the lock: the code, and the bytes.
  abbrev pub load_record : List ℕ → Store → ℤ × List ℕ
  load_record name store = elim (settings_get_val_len store name) [
    | negsuc n ↦ (err_from_errno errno (negsuc n), [])
    | pos n ↦
        let (actual, bytes) = settings_load_one store name n in
        if ltb (record_header_size + config.record_max_size) n
        then (fail Err.too_large, [])
        else if n == 0
        then (fail Err.not_found, [])
        else if is_negative actual
        then (err_from_errno errno actual, bytes)
        else if not (actual ==ℤ pos n)
        then (fail Err.io, bytes)
        else (pos 0, take n bytes)
  ]

  -- `rzi_storage_read_record`: the code, and what goes to `*version` and to `value` and `*size`.
  unfoldable pub read_record :
      Bool → Option (List ℕ) → Option (List ℕ) → Bool → ℕ → Storage → ℤ × ℕ × List ℕ × Storage
  read_record isr namespace key null capacity s =
      let (rc, name) = build_name namespace key in
      let (rc', s') = init isr s in
      let (rc'', bytes) = load_record name s'.store in
      let (rc3, version, value) = decode_record bytes capacity in
      if isr
      then (fail Err.isr, 0, [], s)
      else if null || (capacity == 0)
      then (fail Err.invalid, 0, [], s)
      else if not (is_zero rc)
      then (rc, 0, [], s)
      else if not (is_zero rc')
      then (rc', 0, [], s')
      else if not (is_zero rc'')
      then (rc'', 0, [], s')
      else (rc3, version, value, s')
