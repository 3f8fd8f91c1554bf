-- ===== src/Tests/Commands.antt =====
-- Commands on the credentials of `Api`, and a network mode whose storage fails.
use rzi.Prelude.{
  ℕ, ◌≡◌, ◌⊎◌, ◌+◌, refl, true, false, List, [], ◌∷◌, ◌++◌, pos, negsuc, none, some, codes, leb,
  is_zero,
}
use rzi.Err.{Err, fail}
use rzi.Settings.{setting_read, setting_write, default_value}
use rzi.Lorawan.Lifecycle.{check_thread}
use rzi.Credentials.{
  Credentials, ensure_loaded, guarded_write, loads, read_all, candidate, channel_mask_valid,
}
use rzi.Credentials.Access.{nwk_skey, set_bytes, set_activation}
use rzi.Commands.{
  hex_nibble, hex_bytes, hex_to_bin, bin_to_hex, parse_bool, band_to_region, region_to_band,
}
use rzi.Network.Groups.{
  GroupOps, get_ping_slot_periodicity, set_ping_slot_periodicity, get_beacon_frequency,
  get_beacon_data_rate, Multicast, get_multicast_count, get_multicast_session,
}
use rzi.Commands.ClassB.{as_uint8, handle_pgslot, write_pgslot, handle_bfreq}
use rzi.Commands.Hex.{hex_to_bin-bin_to_hex}
use rzi.Commands.Keys.{
  KeyCommand, value, status_ok, failed, handle_key, write_key, handle_key-handle_key,
}
use rzi.Commands.Multicast.{blank_session, parse_dev_addr, list_from, handle_lstmulc}
use rzi.Commands.Mode.{
  Platform, Mode, set_mode, switch_mode, notify_listeners, save_mode, set_mode_lem,
}
use rzi.Lora.Cipher.{all_bytes}
use rzi.Tests.Api.{api, no_session, abp_device}

hex_to_bin-bin_to_hex_example : hex_to_bin (bin_to_hex (202 ∷ 254 ∷ [])) 2 ≡ some (202 ∷ 254 ∷ [])
unfolding all_bytes
hex_to_bin-bin_to_hex_example = hex_to_bin-bin_to_hex (202 ∷ 254 ∷ []) refl

cafe : (bin_to_hex (202 ∷ 254 ∷ []) ≡ codes "CAFE") × (hex_to_bin (codes "caf") 2 ≡ none)
unfolding bin_to_hex hex_to_bin
cafe = (refl, refl)

bands : (band_to_region 4 ≡ some 0) × (band_to_region 12 ≡ none) × (region_to_band 10 ≡ 2)
unfolding band_to_region region_to_band
bands = (refl, refl, refl)

booleans : (parse_bool (codes "1") ≡ some true) × (parse_bool (codes "2") ≡ none)
unfolding parse_bool
booleans = (refl, refl)

-- Decimal text of one digit.
abbrev digit : ℕ → List ℕ
digit n = (48 + n) ∷ []

-- A backend that keeps a ping slot periodicity and has no other operation.
abbrev ping_slots : GroupOps
ping_slots = record {
  W = ℕ;
  get_ping_slot_periodicity_op = some (λ w. (pos 0, w, w));
  set_ping_slot_periodicity_op = some (λ v _. (pos 0, v));
  get_beacon_frequency_op = none;
  get_beacon_time_op = none;
  get_beacon_data_rate_op = none;
  get_state_op = none;
  stop_op = none;
  add_op = none;
  remove_op = none;
  get_count_op = none;
  get_session_op = λ _. none;
  clear_op = none;
  get_mode_op = none;
  set_mode_op = none;
  get_port_enabled_op = none;
  set_port_enabled_op = none;
  get_net_id_op = none;
  get_dev_nonce_op = none;
  set_dev_nonce_op = none;
}

-- 7 is stored and read back, 8 is refused, and there is no beacon to ask for.
pgslot :
    (handle_pgslot digit digit ping_slots (pos 0) false (some (pos 7)) 0 ≡ (status_ok, 7))
    × (handle_pgslot digit digit ping_slots (pos 0) true none 7 ≡ (value (codes "AT+PGSLOT=7"), 7))
    × (handle_pgslot digit digit ping_slots (pos 0) false (some (pos 8)) 0
        ≡ (failed (fail Err.invalid), 0))
    × (handle_bfreq digit digit ping_slots (pos 0) 0 ≡ (failed (fail Err.not_supported), 0))
unfolding handle_pgslot write_pgslot get_ping_slot_periodicity set_ping_slot_periodicity
    handle_bfreq get_beacon_data_rate get_beacon_frequency
pgslot = (refl, refl, refl, refl)

wrapped : (as_uint8 (pos 263) ≡ 7) × (as_uint8 (negsuc 0) ≡ 255)
wrapped = (refl, refl)

-- A backend with two multicast sessions.
abbrev two_groups : GroupOps
two_groups = record ping_slots {
  get_count_op = some (λ w. (pos 0, 2, w));
  get_session_op = λ _. some (λ w. (pos 0, blank_session, w));
}

abbrev describe : ℕ → Multicast → List ℕ
describe i m = codes "MC" ++ digit i

-- Two lines of three characters need a buffer of nine with their separator and the final NUL.
listed :
    (parse_dev_addr (codes "00000102") ≡ some 258)
    × (handle_lstmulc describe 9 two_groups (pos 0) 0
        ≡ (value (codes "MC1" ++ (13 ∷ 10 ∷ codes "MC2")), 0))
    × (handle_lstmulc describe 8 two_groups (pos 0) 0 ≡ (failed (fail Err.no_resource), 0))
unfolding handle_lstmulc list_from get_multicast_count get_multicast_session parse_dev_addr
    hex_to_bin hex_bytes hex_nibble
listed = (refl, refl, refl)

abbrev nwk_skey_command : KeyCommand
nwk_skey_command = record { response_name = codes "AT+NWKSKEY"; field = nwk_skey }

abbrev text : List ℕ
text = codes "70b3d57ed000000170B3D57ED0000002"

abbrev named : Credentials api × ℕ
named = (handle_key api no_session true nwk_skey_command false text (abp_device, 0)).1

handle_key-handle_key_example :
    handle_key api no_session true nwk_skey_command true [] named
    ≡ (value (codes "AT+NWKSKEY=70B3D57ED000000170B3D57ED0000002"), named)
unfolding handle_key write_key hex_to_bin hex_bytes hex_nibble set_bytes set_activation
    guarded_write ensure_loaded loads read_all candidate channel_mask_valid default_value
    check_thread setting_read setting_write
handle_key-handle_key_example =
    handle_key-handle_key api no_session true nwk_skey_command text (abp_device, 0) refl refl

-- The listeners count their calls, and the storage cannot write.
abbrev broken : Platform
broken = record {
  W = ℕ;
  has_lorawan = true;
  has_lora = true;
  has_nvm = true;
  storage_init = λ w. (pos 0, w);
  storage_read = λ w. (fail Err.not_found, 0, w);
  storage_write = λ mode w. (fail Err.io, w);
  storage_delete = λ w. (pos 0, w);
  listen = λ l mode w. (pos 0, w + 1);
}

abbrev in_lorawan : Mode broken
in_lorawan = record { network_mode = 1; listeners = 5 ∷ []; world = 0 }

set_mode_lem_example :
    let (rc, t) = set_mode broken (some (pos 2)) in_lorawan in
    ((rc ≡ pos 0) × ((some (pos 2) ≡ some (pos t.network_mode)) × (leb t.network_mode 2 ≡ true)))
    ⊎ ((is_zero rc ≡ false) × (t.network_mode ≡ 1))
set_mode_lem_example = set_mode_lem broken (some (pos 2)) in_lorawan

-- The listener was told twice, and the mode is the old one.
goes_back :
    set_mode broken (some (pos 2)) in_lorawan ≡ (fail Err.io, record in_lorawan { world = 2 })
unfolding set_mode switch_mode notify_listeners save_mode
goes_back = refl
