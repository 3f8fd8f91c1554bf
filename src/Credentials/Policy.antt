-- ===== src/Credentials/Policy.antt =====
-- src/lorawan/api/lorawan_credentials.c: the join policy, the channel mask, and the configuration
-- that a join hands to the backend; and src/lorawan/api/lorawan_config.c, the settings that the
-- interface keeps without a copy.
use rzi.Prelude.{
  ℕ, ◌%◌, Bool, true, false, not, ◌&&◌, ◌||◌, List, [], ◌∷◌, ℤ, pos, negsuc, Option, none, some,
  codes, get_or, ltb_ℤ, ◌==◌, ◌==ℤ◌, if◌then◌else◌, is_zero,
}
use Prim.Native.Nat.{bit_and}
use rzi.Err.{Err, fail}
use rzi.Settings.{zeros, channel_mask_words, join_interval_min}
use rzi.Lorawan.{Activation}
use rzi.Lorawan.Lifecycle.{check_thread}
use rzi.Credentials.{
  SettingsApi, Store, Credentials, ensure_loaded, guarded_write, channel_mask_valid, mask_bytes,
  clear_settings,
}
use rzi.Credentials.Access.{le32, word32, is_abp}

-- RZI_LORAWAN_JOIN_KEEP.
abbrev pub keep : ℤ
keep = negsuc 0

-- RZI_LORAWAN_JOIN_INTERVAL_MAX and UINT8_MAX.
abbrev pub policy_max : ℕ
policy_max = 255

-- A field of the policy is kept, or it is in its range.
abbrev pub is_field : ℕ → ℕ → ℤ → Bool
is_field low high z = (z ==ℤ keep) || (not (ltb_ℤ z (pos low)) && not (ltb_ℤ (pos high) z))

-- The value of a field that is in range, as a byte.
abbrev pub pick : ℕ → ℤ → ℕ
pick old (pos n) = n
pick old (negsuc _) = old

-- `struct rzi_lorawan_join_config`, with the union as its two cases.
pub data Keys : Type 0 where
  abp_keys : List ℕ → List ℕ → List ℕ → Keys
  otaa_keys : List ℕ → List ℕ → List ℕ → List ℕ → Keys

pub record JoinConfig : Type 0 where
  pub activation : Activation
  pub retry_interval_s : ℕ
  pub mask : Option (List ℕ)
  pub keys : Keys

-- RZI_LORAWAN_REGION_US_915 and _AU_915; `rzi_lorawan_region_has_fixed_plan`.
abbrev pub region_us_915 : ℕ
region_us_915 = 1

abbrev pub region_au_915 : ℕ
region_au_915 = 2

abbrev pub has_fixed_plan : ℕ → Bool
has_fixed_plan region = (region == region_us_915) || (region == region_au_915)

-- RZI_LORAWAN_CAP_CHANNEL is bit 6.
abbrev pub has_channels : ℕ → Bool
has_channels capabilities = not (bit_and capabilities 64 == 0)

-- The configuration that a store gives.
unfoldable pub config_of : ℕ → ℕ → Store → JoinConfig
config_of capabilities region s = record {
  activation = s.njm;
  retry_interval_s = s.join_interval;
  mask =
      if s.channel_mask_set && (has_fixed_plan region && has_channels capabilities)
      then some s.channel_mask
      else none;
  keys =
      if is_abp s.njm
      then abp_keys s.dev_addr.bytes s.nwk_skey.bytes s.app_skey.bytes
      else otaa_keys s.dev_eui.bytes s.app_eui.bytes s.app_key.bytes
          (if s.gen_app_key.is_set then s.gen_app_key.bytes else s.app_key.bytes);
}

module _ (a : SettingsApi) where
  unfoldable pub update_policy : Bool → ℤ → ℤ → ℤ → Credentials a → ℤ × Credentials a
  update_policy isr auto interval attempts s =
      let (rc, t) = ensure_loaded a s in
      let on = pick (if t.store.auto_join then 1 else 0) auto in
      let every = pick t.store.join_interval interval in
      let tries = pick t.store.join_attempts attempts in
      let (rc', c) = a.setting_write (codes "join_policy") (on ∷ every ∷ tries ∷ []) t.settings in
      if not (is_zero (check_thread isr))
      then (check_thread isr, s)
      else if not (
          is_field 0 1 auto
          && (is_field join_interval_min policy_max interval && is_field 0 policy_max attempts))
      then (fail Err.invalid, s)
      else if not (is_zero rc)
      then (rc, t)
      else if not (is_zero rc')
      then (rc', record t { settings = c })
      else (
        pos 0,
        record {
          store = record t.store {
            auto_join = not (on == 0);
            join_interval = every;
            join_attempts = tries;
          };
          settings = c;
        },
      )

  -- The code, the mask, and `*set`.
  unfoldable pub get_channel_mask : Credentials a → ℤ × List ℕ × Bool × Credentials a
  get_channel_mask s =
      let (rc, t) = ensure_loaded a s in (rc, t.store.channel_mask, t.store.channel_mask_set, t)

  -- A mask that is NULL stores an explicit default.
  unfoldable pub set_channel_mask : Option (List ℕ) → Credentials a → ℤ × Credentials a
  set_channel_mask none s =
      guarded_write a (codes "chmask") (mask_bytes (zeros channel_mask_words))
        (λ st. record st { channel_mask = zeros channel_mask_words; channel_mask_set = false }) s
  set_channel_mask (some mask) s =
      if not (channel_mask_valid mask)
      then (fail Err.invalid, s)
      else guarded_write a (codes "chmask") (mask_bytes mask)
          (λ st. record st { channel_mask = mask; channel_mask_set = true }) s

  -- `region` is what `rzi_lorawan_get_region` gives: its code and the region.
  unfoldable pub build_config :
      Bool → ℕ → ℤ × ℕ → Credentials a → ℤ × Option JoinConfig × Credentials a
  build_config isr capabilities (got, region) s =
      let (rc, t) = ensure_loaded a s in
      if not (is_zero (check_thread isr))
      then (check_thread isr, none, s)
      else if not (is_zero got)
      then (got, none, s)
      else if not (is_zero rc)
      then (rc, none, t)
      else (pos 0, some (config_of capabilities region t.store), t)

  -- src/lorawan/api/lorawan_config.c: `read_config`, `write_config`. A destination that is NULL is
  -- `has_room` false.
  unfoldable pub read_config : Bool → Bool → List ℕ → ℕ → a.C → ℤ × List ℕ × Bool × a.C
  read_config isr has_room key size c =
      if not (is_zero (check_thread isr))
      then (check_thread isr, [], false, c)
      else if not has_room
      then (fail Err.invalid, [], false, c)
      else a.setting_read key size c

  unfoldable pub write_config : Bool → List ℕ → List ℕ → a.C → ℤ × a.C
  write_config isr key value c =
      if not (is_zero (check_thread isr))
      then (check_thread isr, c)
      else a.setting_write key value c

  unfoldable pub config_get_region : a.C → ℤ × ℕ × a.C
  config_get_region c =
      let (rc, v, _, c') = a.setting_read (codes "region") 1 c in (rc, get_or v 0 0, c')

  -- The enumeration is cast to a byte.
  unfoldable pub config_set_region : ℕ → a.C → ℤ × a.C
  config_set_region region c = a.setting_write (codes "region") (region % 256 ∷ []) c

  unfoldable pub get_confirmed : Bool → Bool → a.C → ℤ × Bool × a.C
  get_confirmed isr has_room c =
      let (rc, v, _, c') = read_config isr has_room (codes "cfm") 1 c in
      (rc, not (get_or v 0 0 == 0), c')

  unfoldable pub set_confirmed : Bool → Bool → a.C → ℤ × a.C
  set_confirmed isr enabled c = write_config isr (codes "cfm") ((if enabled then 1 else 0) ∷ []) c

  unfoldable pub get_retries : Bool → Bool → a.C → ℤ × ℕ × a.C
  get_retries isr has_room c =
      let (rc, v, _, c') = read_config isr has_room (codes "rety") 1 c in (rc, get_or v 0 0, c')

  unfoldable pub set_retries : Bool → ℕ → a.C → ℤ × a.C
  set_retries isr count c = write_config isr (codes "rety") (count ∷ []) c

  unfoldable pub config_get_net_id : a.C → ℤ × ℕ × a.C
  config_get_net_id c =
      let (rc, v, found, c') = a.setting_read (codes "netid") 4 c in
      (if is_zero rc && not found then fail Err.no_data else rc, word32 v, c')

  unfoldable pub set_net_id : Bool → ℕ → a.C → ℤ × a.C
  set_net_id isr net_id c = write_config isr (codes "netid") (le32 net_id) c

  -- `rzi_lorawan_clear_settings`.
  unfoldable pub clear_all : Bool → Credentials a → ℤ × Credentials a
  clear_all isr s =
      if not (is_zero (check_thread isr)) then (check_thread isr, s) else clear_settings a s
