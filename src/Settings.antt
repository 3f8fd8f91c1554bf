-- ===== src/Settings.antt =====
-- src/lorawan/lorawan_settings.c: the schema of the LoRaWAN settings, their defaults, validation,
-- migration from older keys, and the cache in front of the storage service.
-- The storage service is the interface `StorageApi`.
-- Each function holds `schema_lock` for its whole body, so a call is one step.
pub mod Coherence
pub mod Cache
pub mod Durability
pub mod Runs
pub mod Loading
pub mod Persistent
use rzi.Prelude.{
  ℕ, zero, suc, ◌+◌, ◌-◌, ◌*◌, ◌/◌, ◌%◌, ◌^◌, Bool, true, false, not, ◌&&◌, ◌||◌, List, [], ◌∷◌,
  ◌++◌, ℤ, pos, Option, none, some, length, get_or, codes, eq_bytes, ltb, leb, ◌==◌, ◌==ℤ◌,
  if◌then◌else◌, is_zero,
}
use rzi.Err.{Err, fail}

-- What the settings use of the storage service, from a thread: reads give the code, what was read,
-- and for a record its version first.
pub record StorageApi : Type 1 where
  pub S : Type 0
  pub read : List ℕ → List ℕ → ℕ → S → ℤ × List ℕ × S
  pub write : List ℕ → List ℕ → List ℕ → S → ℤ × S
  pub delete : List ℕ → List ℕ → S → ℤ × S
  pub write_record : List ℕ → List ℕ → ℕ → List ℕ → S → ℤ × S
  pub read_record : List ℕ → List ℕ → ℕ → S → ℤ × ℕ × List ℕ × S

-- `enum value_kind`.
pub data Kind : Type 0 where
  bytes boolean retries region activation net_id channel_mask interval join_policy : Kind

-- The constant part of `struct setting`.
pub record Schema : Type 0 where
  pub key : List ℕ
  pub size : ℕ
  pub kind : Kind
  pub default_first : ℕ

-- The rest of it; `value` has `size` bytes once it is loaded.
pub record Setting : Type 0 where
  pub schema : Schema
  pub loaded : Bool
  pub present : Bool
  pub value : List ℕ

abbrev pub lorawan_namespace : List ℕ
lorawan_namespace = codes "lorawan"

abbrev pub rzi_namespace : List ℕ
rzi_namespace = codes "rzi"

-- RZI_JOIN_POLICY_SIZE and RZI_JOIN_POLICY_VERSION.
abbrev pub join_policy_size : ℕ
join_policy_size = 3

abbrev pub join_policy_version : ℕ
join_policy_version = 1

-- RZI_LORAWAN_JOIN_INTERVAL_MIN and _DEFAULT.
abbrev pub join_interval_min : ℕ
join_interval_min = 7

abbrev pub join_interval_default : ℕ
join_interval_default = 8

abbrev pub channel_mask_words : ℕ
channel_mask_words = 6

-- RZI_LORAWAN_REGION_RU_864.
abbrev pub last_region : ℕ
last_region = 10

-- ENTRY.
abbrev pub entry : List ℕ → ℕ → Kind → ℕ → Schema
entry key size kind first = record { key = key; size = size; kind = kind; default_first = first }

abbrev pub autojoin : Schema
autojoin = entry (codes "autojoin") 1 boolean 0

abbrev pub join_interval : Schema
join_interval = entry (codes "join_interval") 1 interval join_interval_default

abbrev pub join_attempts : Schema
join_attempts = entry (codes "join_attempts") 1 bytes 0

-- The table `settings`.
abbrev pub table : List Schema
table =
    entry (codes "deveui") 8 bytes 0
    ∷ entry (codes "joineui") 8 bytes 0
    ∷ entry (codes "appkey") 16 bytes 0
    ∷ entry (codes "genappkey") 16 bytes 0
    ∷ entry (codes "devaddr") 4 bytes 0
    ∷ entry (codes "nwkskey") 16 bytes 0
    ∷ entry (codes "appskey") 16 bytes 0
    ∷ entry (codes "njm") 1 activation 1
    ∷ entry (codes "chmask") (channel_mask_words * 2) channel_mask 0
    ∷ entry (codes "region") 1 region 0
    ∷ entry (codes "cfm") 1 boolean 0
    ∷ entry (codes "rety") 1 retries 0
    ∷ entry (codes "netid") 4 net_id 0
    ∷ entry (codes "join_policy") join_policy_size join_policy 0
    ∷ autojoin
    ∷ join_interval
    ∷ join_attempts
    ∷ entry (codes "band") 1 bytes 0
    ∷ []

-- The cache before anything is loaded.
abbrev pub unloaded : List Schema → List Setting
unloaded [] = []
unloaded (x ∷ xs) = record { schema = x; loaded = false; present = false; value = [] } ∷ unloaded xs

abbrev pub find_setting : List ℕ → List Setting → Option Setting
find_setting key [] = none
find_setting key (x ∷ xs) = if eq_bytes x.schema.key key then some x else find_setting key xs

-- Assignment through the pointer that was found; the keys of the table are distinct.
abbrev pub replace : Setting → List Setting → List Setting
replace e [] = []
replace e (x ∷ xs) = (if eq_bytes x.schema.key e.schema.key then e else x) ∷ replace e xs

-- A word of two or four bytes in the byte order of the targets, which are little-endian.
abbrev pub word_at : ℕ → List ℕ → ℕ
word_at i v = get_or v (2 * i) 0 + 256 * get_or v (2 * i + 1) 0

abbrev pub has_bit : ℕ → List ℕ → Bool
has_bit channel v = word_at (channel / 16) v / 2 ^ (channel % 16) % 2 == 1

-- The loop over `n` channels from `channel` on: none of them is set.
pub no_channels : ℕ → ℕ → List ℕ → Bool
no_channels zero channel v = true
no_channels (suc n) channel v = not (has_bit channel v) && no_channels n (channel + 1) v

pub valid_value : Kind → List ℕ → Bool
unfolding no_channels
valid_value boolean v = leb (get_or v 0 0) 1
valid_value activation v = leb (get_or v 0 0) 1
valid_value retries v = leb (get_or v 0 0) 7
valid_value region v = leb (get_or v 0 0) last_region
valid_value interval v = leb join_interval_min (get_or v 0 0)
valid_value net_id v = leb (word_at 0 v + 65536 * word_at 1 v) 0xffffff
valid_value channel_mask v = no_channels 24 72 v
valid_value join_policy v = leb (get_or v 0 0) 1 && leb join_interval_min (get_or v 1 0)
valid_value bytes v = true

abbrev pub zeros : ℕ → List ℕ
zeros zero = []
zeros (suc n) = 0 ∷ zeros n

-- `kind == JOIN_POLICY` and `kind == REGION`.
abbrev pub is_policy : Kind → Bool
is_policy join_policy = true
is_policy _ = false

abbrev pub is_region : Kind → Bool
is_region region = true
is_region _ = false

unfoldable pub default_value : Schema → List ℕ
default_value x =
    x.default_first
    ∷ (if is_policy x.kind then join_interval_default ∷ zeros (x.size - 2) else zeros (x.size - 1))

-- `bands` of `migrate_region`.
abbrev pub bands : List ℕ
bands = 0 ∷ 3 ∷ 10 ∷ 8 ∷ 0 ∷ 1 ∷ 2 ∷ 9 ∷ 4 ∷ 5 ∷ 6 ∷ 7 ∷ []

-- `has_storage` is CONFIG_RZI_STORAGE.
module _ (a : StorageApi) (has_storage : Bool) where
  pub record Settings : Type 0 where
    pub settings : List Setting
    pub storage : a.S

  unfoldable pub save_value : Schema → List ℕ → a.S → ℤ × a.S
  save_value x value s =
      if not has_storage
      then (pos 0, s)
      else if is_policy x.kind
      then a.write_record lorawan_namespace x.key join_policy_version value s
      else a.write lorawan_namespace x.key value s

  -- The first reads of `read_legacy`.
  unfoldable pub read_places : Schema → a.S → ℤ × List ℕ × a.S
  read_places x s =
      let (rc, v, s') = a.read lorawan_namespace x.key x.size s in
      if rc ==ℤ fail Err.not_found then a.read rzi_namespace x.key x.size s' else (rc, v, s')

  -- The code, the candidate, and `*found`.
  unfoldable pub read_legacy : Schema → a.S → ℤ × List ℕ × Bool × a.S
  unfolding read_places valid_value
  read_legacy x s =
      let (rc, v, t) = read_places x s in
      (
        if rc ==ℤ fail Err.not_found
            then pos 0
            else if not (is_zero rc)
            then rc
            else if valid_value x.kind v
            then pos 0
            else fail Err.bad_message,
        if rc ==ℤ fail Err.not_found then default_value x else v,
        is_zero rc,
        t,
      )

  -- The value is as before unless a band was found.
  unfoldable pub migrate_region : List ℕ → a.S → ℤ × List ℕ × Bool × a.S
  migrate_region value s =
      let (rc, v, t) = a.read rzi_namespace (codes "band") 1 s in
      let band = get_or v 0 0 in
      let is_band = not (band == 0) && not (leb (length bands) band) in
      (
        if rc ==ℤ fail Err.not_found
            then pos 0
            else if not (is_zero rc)
            then rc
            else if is_band
            then pos 0
            else fail Err.bad_message,
        if is_zero rc && is_band then get_or bands band 0 ∷ [] else value,
        is_zero rc,
        t,
      )

  -- The loop over the three older keys of the join policy.
  unfoldable pub read_all_legacy : List Schema → a.S → ℤ × List ℕ × Bool × a.S
  unfolding read_legacy
  read_all_legacy [] s = (pos 0, [], false, s)
  read_all_legacy (x ∷ xs) s =
      let (rc, v, found, s') = read_legacy x s in
      let (rc', vs, found', s'') = read_all_legacy xs s' in
      if not (is_zero rc) then (rc, v, false, s') else (rc', v ++ vs, found || found', s'')

  -- The end of `load_value`: a value found under an older key is saved under the current one.
  unfoldable pub save_found : Schema → ℤ × List ℕ × Bool × a.S → ℤ × List ℕ × Bool × a.S
  unfolding save_value
  save_found x (rc, v, found, s) =
      let (rc', s') = save_value x v s in
      if is_zero rc && found then (rc', v, found, s') else (rc, v, found, s)

  unfoldable pub load_policy : Schema → a.S → ℤ × List ℕ × Bool × a.S
  unfolding read_all_legacy save_found valid_value
  load_policy x s =
      let (rc, version, v, s') = a.read_record lorawan_namespace x.key x.size s in
      if is_zero rc
      then (
        if not (version == join_policy_version)
            then fail Err.not_supported
            else if not (length v == x.size) || not (valid_value x.kind v)
            then fail Err.bad_message
            else pos 0,
        v,
        true,
        s',
      )
      else if not (rc ==ℤ fail Err.not_found)
      then (rc, v, false, s')
      else save_found x (read_all_legacy (autojoin ∷ join_interval ∷ join_attempts ∷ []) s')

  -- The older places of a value that is not a policy.
  unfoldable pub load_older : Schema → a.S → ℤ × List ℕ × Bool × a.S
  unfolding read_legacy migrate_region
  load_older x s =
      let (rc, v, found, s') = read_legacy x s in
      if is_zero rc && (not found && is_region x.kind)
      then migrate_region v s'
      else (rc, v, found, s')

  unfoldable pub load_plain : Schema → a.S → ℤ × List ℕ × Bool × a.S
  unfolding load_older save_found valid_value
  load_plain x s =
      let (rc, v, s') = a.read lorawan_namespace x.key x.size s in
      if is_zero rc
      then (if valid_value x.kind v then pos 0 else fail Err.bad_message, v, true, s')
      else if not (rc ==ℤ fail Err.not_found)
      then (rc, v, false, s')
      else save_found x (load_older x s')

  unfoldable pub load_value : Schema → a.S → ℤ × List ℕ × Bool × a.S
  unfolding load_policy load_plain
  load_value x s =
      if not has_storage
      then (pos 0, default_value x, false, s)
      else if is_policy x.kind
      then load_policy x s
      else load_plain x s

  unfoldable pub read_setting : Setting → Settings → ℤ × List ℕ × Bool × Settings
  unfolding load_value
  read_setting e c =
      let (rc, v, found, s) = load_value e.schema c.storage in
      let e' = record e { value = v; present = found; loaded = true } in
      if e.loaded
      then (pos 0, e.value, e.present, c)
      else if is_zero rc
      then (pos 0, v, found, record { settings = replace e' c.settings; storage = s })
      else (rc, [], false, record c { storage = s })

  -- A key outside the table, or a size that is not the setting's, is refused.
  unfoldable pub read_found : ℕ → Settings → Option Setting → ℤ × List ℕ × Bool × Settings
  unfolding read_setting
  read_found size c none = (fail Err.invalid, [], false, c)
  read_found size c (some e) =
      if size == e.schema.size then read_setting e c else (fail Err.invalid, [], false, c)

  -- `rzi_lorawan_setting_read`: the code, the value, and `*found`.
  unfoldable pub setting_read : List ℕ → ℕ → Settings → ℤ × List ℕ × Bool × Settings
  unfolding read_found
  setting_read key size c = read_found size c (find_setting key c.settings)

  unfoldable pub write_setting : Setting → List ℕ → Settings → ℤ × Settings
  unfolding save_value
  write_setting e value c =
      let (rc, s) = save_value e.schema value c.storage in
      let e' = record e { value = value; present = true; loaded = true } in
      if e.loaded && (e.present && eq_bytes e.value value)
      then (pos 0, record c { settings = replace e' c.settings })
      else if is_zero rc
      then (pos 0, record { settings = replace e' c.settings; storage = s })
      else (rc, record c { storage = s })

  unfoldable pub write_found : List ℕ → Settings → Option Setting → ℤ × Settings
  unfolding write_setting valid_value
  write_found value c none = (fail Err.invalid, c)
  write_found value c (some e) =
      if (length value == e.schema.size) && valid_value e.schema.kind value
      then write_setting e value c
      else (fail Err.invalid, c)

  -- `rzi_lorawan_setting_write`; `value` has the length `size`.
  unfoldable pub setting_write : List ℕ → List ℕ → Settings → ℤ × Settings
  unfolding write_found
  setting_write key value c = write_found value c (find_setting key c.settings)

  -- The inner loop of `rzi_lorawan_settings_clear`: the first failure is kept.
  unfoldable pub delete_all : List ℕ → List Setting → ℤ × a.S → ℤ × a.S
  delete_all namespace [] acc = acc
  delete_all namespace (e ∷ es) (rc, s) =
      let (one, s') = a.delete namespace e.schema.key s in
      delete_all namespace es (
        if not (is_zero one) && (not (one ==ℤ fail Err.not_found) && is_zero rc) then one else rc,
        s',
      )

  abbrev pub forget : List Setting → List Setting
  forget [] = []
  forget (e ∷ es) = record e { value = []; loaded = false; present = false } ∷ forget es

  unfoldable pub settings_clear : Settings → ℤ × Settings
  unfolding delete_all
  settings_clear c =
      let (rc, s) =
        delete_all rzi_namespace c.settings
          (delete_all lorawan_namespace c.settings (pos 0, c.storage)) in
      let (code, t) : ℤ × a.S = if has_storage then (rc, s) else (pos 0, c.storage) in
      (
        code,
        record { settings = if is_zero code then forget c.settings else c.settings; storage = t },
      )
