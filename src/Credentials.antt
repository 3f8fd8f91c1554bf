-- ===== src/Credentials.antt =====
-- src/lorawan/api/lorawan_credentials.c: the stored credentials, the join policy and the channel
-- mask. This file has the store and its loading, `Access` the getters and setters of the public
-- interface, `Policy` the rest. Each function holds `credential_lock` for its whole body, so a call
-- is one step.
pub mod Access
pub mod Policy
pub mod Guard
pub mod Stored
pub mod Bounds
pub mod Durable
use rzi.Prelude.{
  ℕ, zero, suc, ◌+◌, ◌*◌, ◌/◌, ◌%◌, ◌^◌, Bool, true, false, not, ◌&&◌, ◌||◌, List, [], ◌∷◌, ◌++◌, ℤ,
  pos, Option, none, some, length, get_or, codes, ltb, ◌==◌, if◌then◌else◌, is_zero, is_null,
}
use rzi.Err.{Err, fail}
use rzi.Settings.{word_at, zeros, channel_mask_words, join_policy_size, join_interval_min}
use rzi.Lorawan.{Activation, otaa, abp}
use rzi.Lorawan.Lifecycle.{check_thread}

-- What the credentials use of the settings (src/lorawan/lorawan_settings.h).
pub record SettingsApi : Type 1 where
  pub C : Type 0
  pub setting_read : List ℕ → ℕ → C → ℤ × List ℕ × Bool × C
  pub setting_write : List ℕ → List ℕ → C → ℤ × C
  pub settings_clear : C → ℤ × C

-- A value of `struct credential_store` with its `_set` flag.
pub record Value : Type 0 where
  pub bytes : List ℕ
  pub is_set : Bool

-- `struct credential_store`; the device address is kept as its four bytes, as it is stored.
pub record Store : Type 0 where
  pub dev_eui : Value
  pub app_eui : Value
  pub app_key : Value
  pub gen_app_key : Value
  pub dev_addr : Value
  pub nwk_skey : Value
  pub app_skey : Value
  pub njm : Activation
  pub auto_join : Bool
  pub join_interval : ℕ
  pub join_attempts : ℕ
  pub channel_mask : List ℕ
  pub channel_mask_set : Bool
  pub join_active : Bool
  pub loaded : Bool

abbrev pub unset : ℕ → Value
unset n = record { bytes = zeros n; is_set = false }

-- The static store, and the store after `memset`.
abbrev pub empty : Store
empty = record {
  dev_eui = unset 8;
  app_eui = unset 8;
  app_key = unset 16;
  gen_app_key = unset 16;
  dev_addr = unset 4;
  nwk_skey = unset 16;
  app_skey = unset 16;
  njm = otaa;
  auto_join = false;
  join_interval = 0;
  join_attempts = 0;
  channel_mask = zeros channel_mask_words;
  channel_mask_set = false;
  join_active = false;
  loaded = false;
}

-- RZI_LORAWAN_FIXED_PLAN_CHANNELS.
abbrev pub fixed_plan_channels : ℕ
fixed_plan_channels = 72

-- `mask[channel / 16U] & BIT(channel % 16U)`.
abbrev pub has_channel : List ℕ → ℕ → Bool
has_channel mask channel = get_or mask (channel / 16) 0 / 2 ^ (channel % 16) % 2 == 1

-- The loop of `channel_mask_valid` over `n` channels from `channel` on.
abbrev pub valid_from : ℕ → ℕ → Bool → List ℕ → Bool
valid_from zero channel any mask = any
valid_from (suc n) channel any mask =
    let rest = valid_from n (channel + 1) (any || has_channel mask channel) mask in
    if has_channel mask channel && not (ltb channel fixed_plan_channels) then false else rest

unfoldable pub channel_mask_valid : List ℕ → Bool
channel_mask_valid mask = valid_from (channel_mask_words * 16) 0 false mask

-- The words of a mask as they are stored, low byte first.
abbrev pub mask_bytes : List ℕ → List ℕ
mask_bytes [] = []
mask_bytes (w ∷ ws) = w % 256 ∷ w / 256 % 256 ∷ mask_bytes ws

abbrev pub mask_words : List ℕ → List ℕ
mask_words v =
    word_at 0 v ∷ word_at 1 v ∷ word_at 2 v ∷ word_at 3 v ∷ word_at 4 v ∷ word_at 5 v ∷ []

-- The reads of `ensure_loaded_locked`, in order.
unfoldable pub loads : List (List ℕ × ℕ)
loads =
    (codes "deveui", 8)
    ∷ (codes "joineui", 8)
    ∷ (codes "appkey", 16)
    ∷ (codes "genappkey", 16)
    ∷ (codes "devaddr", 4)
    ∷ (codes "nwkskey", 16)
    ∷ (codes "appskey", 16)
    ∷ (codes "njm", 1)
    ∷ (codes "join_policy", join_policy_size)
    ∷ (codes "chmask", channel_mask_words * 2)
    ∷ []

abbrev pub value_at : List (List ℕ × Bool) → ℕ → Value
value_at vs i = let (v, found) = get_or vs i ([], false) in record { bytes = v; is_set = found }

-- `candidate`, once every read has succeeded. NJM_WIRE_ABP is 0.
unfoldable pub candidate : List (List ℕ × Bool) → Bool → Store
candidate vs join_active =
    let policy = (value_at vs 8).bytes in
    let mask = mask_words (value_at vs 9).bytes in
    record {
      dev_eui = value_at vs 0;
      app_eui = value_at vs 1;
      app_key = value_at vs 2;
      gen_app_key = value_at vs 3;
      dev_addr = value_at vs 4;
      nwk_skey = value_at vs 5;
      app_skey = value_at vs 6;
      njm = if get_or (value_at vs 7).bytes 0 0 == 0 then abp else otaa;
      auto_join = not (get_or policy 0 0 == 0);
      join_interval = get_or policy 1 0;
      join_attempts = get_or policy 2 0;
      channel_mask = mask;
      channel_mask_set = (value_at vs 9).is_set && channel_mask_valid mask;
      join_active = join_active;
      loaded = true;
    }

module _ (a : SettingsApi) where
  -- The store, and the settings behind it.
  pub record Credentials : Type 0 where
    pub store : Store
    pub settings : a.C

  -- The reads stop at the first that fails.
  unfoldable pub read_all : List (List ℕ × ℕ) → a.C → ℤ × List (List ℕ × Bool) × a.C
  read_all [] c = (pos 0, [], c)
  read_all ((key, size) ∷ xs) c =
      let (rc, v, found, c') = a.setting_read key size c in
      let (rc', vs, c'') = read_all xs c' in
      if is_zero rc then (rc', (v, found) ∷ vs, c'') else (rc, [], c')

  -- `ensure_loaded_locked`.
  unfoldable pub ensure_loaded : Credentials → ℤ × Credentials
  ensure_loaded s =
      let (rc, vs, c) = read_all loads s.settings in
      if s.store.loaded
      then (pos 0, s)
      else if is_zero rc
      then (pos 0, record { store = candidate vs s.store.join_active; settings = c })
      else (rc, record s { settings = c })

  -- The body that the setters share: refused while a join is active, then persisted, and only then
  -- stored.
  unfoldable pub guarded_write : List ℕ → List ℕ → (Store → Store) → Credentials → ℤ × Credentials
  guarded_write key value update s =
      let (rc, t) = ensure_loaded s in
      let (rc', c) = a.setting_write key value t.settings in
      if not (is_zero rc)
      then (rc, t)
      else if t.store.join_active
      then (fail Err.busy, t)
      else if not (is_zero rc')
      then (rc', record t { settings = c })
      else (pos 0, record { store = update t.store; settings = c })

  -- `rzi_lorawan_credentials_set_join_active`.
  unfoldable pub set_join_active : Bool → Credentials → Credentials
  set_join_active active s = record s { store = record s.store { join_active = active } }

  -- `rzi_lorawan_credentials_clear_settings`.
  unfoldable pub clear_settings : Credentials → ℤ × Credentials
  clear_settings s =
      let (rc, c) = a.settings_clear s.settings in
      if s.store.join_active
      then (fail Err.busy, s)
      else if is_zero rc
      then (rc, record { store = empty; settings = c })
      else (rc, record s { settings = c })
