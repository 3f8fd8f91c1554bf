-- ===== src/Tests/Api.antt =====
-- The credentials over the settings of `Settings`, the channels over the credentials, and a backend
-- that counts its calls.
use rzi.Prelude.{
  ℕ, ◌≡◌, ◌⊎◌, ◌+◌, refl, true, false, List, [], ◌∷◌, ◌++◌, ℤ, pos, none, some, length, codes,
  is_zero, not, if◌then◌else◌, arith,
}
use rzi.Settings.{zeros, setting_read, setting_write, forget, default_value}
use rzi.Settings.Runs.{started, run_calls}
use rzi.Credentials.{
  SettingsApi, Credentials, empty, ensure_loaded, guarded_write, loads, read_all, candidate,
  set_join_active, channel_mask_valid,
}
use rzi.Credentials.Access.{
  Session, is_abp, app_key, dev_eui, nwk_skey, set_bytes, set_activation, get_session, read_otaa,
  session_joined, get_field,
}
use rzi.Lorawan.{abp}
use rzi.Credentials.Policy.{update_policy, set_channel_mask, keep}
use rzi.Credentials.Guard.{change_bytes, change_mask, change, change-refused}
use rzi.Credentials.Stored.{set_bytes-get_field}
use rzi.Credentials.Bounds.{apply, policy, join_active, Call, run, run-IsSafe}
use rzi.Credentials.Durable.{settings_api, restart-set_bytes}
use rzi.Channels.{
  channel_plan, set_sub_band, get_sub_band, set_fixed_channel, get_fixed_channel, store_mask,
  sub_band_channels, all_channels, frequency_channel, frequency_from, channel_frequency, set_found,
}
use rzi.Channels.RoundTrips.{set_sub_band-get_sub_band, set_fixed_channel-get_fixed_channel}
use rzi.Lorawan.Lifecycle.{check_thread}
use rzi.Network.{NetworkOps, Reads, Takes}
use rzi.Network.Limits.{set_data_rate, send_data_rate, check_uplink_data_rate, check_enabled}
use rzi.Network.Mac.{
  MacOps, Mac, request_link_check, on_uplink, link_check_disabled, link_check_once,
}
use rzi.Network.Gate.{
  perform, perform-refused, in_range, adr_ack, data_rate, request_link_check-on_uplink,
}
use rzi.Storage.{
  valid_component, build_name, init, read, write, encode_record, decode_record, write_record,
  read_record,
}
use rzi.Err.{err_from_errno}
use rzi.Power.{lock_get, lock_put, initial}
use rzi.Tests.Storage.{
  entries_kernel, config, entries_kernel-IsSettings, entries_kernel-IsRecordStore,
  entries_kernel-IsByteOrder,
}
use rzi.Tests.Settings.{ram, persistent, device, some_calls}

abbrev pub api : SettingsApi
api = settings_api ram

-- A device that has just started, with nothing stored.
abbrev pub fresh : Credentials api
fresh = record { store = empty; settings = started ram [] }

-- A join is running.
abbrev busy : Credentials api
busy = set_join_active api true fresh

change-refused_example :
    let (rc, t) = change api false (change_bytes app_key (some (1 ∷ []))) busy in
    (is_zero rc ≡ false) × ((t ≡ busy) ⊎ (t ≡ (ensure_loaded api busy).1))
unfolding set_join_active
change-refused_example = change-refused api false (change_bytes app_key (some (1 ∷ []))) busy refl

abbrev eui : List ℕ
eui = 1 ∷ 2 ∷ 3 ∷ 4 ∷ 5 ∷ 6 ∷ 7 ∷ 8 ∷ []

-- A backend with no session operations, not joined.
abbrev pub no_session : Session
no_session = record {
  W = ℕ;
  is_joined = λ w. (pos 0, false, w);
  get_dev_addr = none;
  get_nwk_skey = none;
  get_app_skey = none;
}

-- A device that is set to ABP.
abbrev pub abp_device : Credentials api
abp_device = (set_activation api false 3 abp fresh).1

abbrev key : List ℕ
key = zeros 15 ++ (7 ∷ [])

abbrev keyed : Credentials api
keyed = (set_bytes api false nwk_skey (some key) abp_device).1

key_set : (set_bytes api false nwk_skey (some key) abp_device).0 ≡ pos 0
unfolding set_bytes set_activation guarded_write ensure_loaded loads read_all candidate
    channel_mask_valid default_value check_thread setting_read setting_write
key_set = refl

set_bytes-get_field_example :
    (abp_device.store.join_active ≡ false)
    × (length key ≡ 16)
    × (setting_write ram true (codes "nwkskey") key (ensure_loaded api abp_device).1.settings
        ≡ (pos 0, keyed.settings))
    × (get_field api no_session true false nwk_skey (some 16) (keyed, 0) ≡ (
        if not (is_abp keyed.store.njm)
        then (let (rc, session_key, w) = read_otaa api no_session true (zeros 16) none 0 in
            (rc, session_key, (keyed, w)))
        else (pos 0, key, (keyed, 0))))
set_bytes-get_field_example =
    set_bytes-get_field api no_session true nwk_skey key abp_device 0 key_set

under_abp : is_abp keyed.store.njm ≡ true
unfolding set_bytes set_activation guarded_write ensure_loaded loads read_all candidate
    channel_mask_valid default_value check_thread setting_read setting_write
under_abp = refl

-- Under OTAA the same getter gives the session's key, zeros while there is no session.
otaa_key :
    (get_field api no_session true false nwk_skey
      (some 16)
      ((set_bytes api false nwk_skey (some key) fresh).1, 0)).1
    ≡ zeros 16
unfolding get_field set_bytes guarded_write ensure_loaded loads read_all candidate
    channel_mask_valid default_value check_thread setting_read setting_write get_session read_otaa
    session_joined
otaa_key = refl

-- The settings over the storage service.
abbrev settings : SettingsApi
settings = settings_api persistent

abbrev restored : Credentials settings
restored = record {
  store = empty;
  settings = run_calls persistent some_calls (started persistent device);
}

restored_ok : (set_bytes settings false dev_eui (some eui) restored).0 ≡ pos 0
unfolding set_bytes guarded_write ensure_loaded loads read_all candidate channel_mask_valid
    default_value check_thread run_calls setting_read setting_write read write read_record
    write_record encode_record decode_record init build_name valid_component lock_get lock_put
    initial err_from_errno
restored_ok = refl

restart-set_bytes_example :
    let c = (set_bytes settings false dev_eui (some eui) restored).1.settings in
    let (rc, w, found, _) =
      setting_read persistent true
        (codes "deveui")
        8
        (record { settings = forget persistent true c.settings; storage = c.storage }) in
    (rc ≡ pos 0) × (w ≡ eui) × (found ≡ true)
restart-set_bytes_example =
    restart-set_bytes entries_kernel config entries_kernel-IsSettings entries_kernel-IsRecordStore
      entries_kernel-IsByteOrder (omega arith) some_calls device dev_eui eui empty restored_ok

-- A sub-band mask, a policy, and a join.
abbrev calls : List Call
calls =
    apply false (change_mask (some (sub_band_channels 2)))
    ∷ policy false (pos 1) (pos 30) keep
    ∷ join_active true
    ∷ apply false (change_mask none)
    ∷ []

run-IsSafe_example :
    let s = (run api calls fresh).store in
    (s.channel_mask_set ≡ false) ⊎ (channel_mask_valid s.channel_mask ≡ true)
run-IsSafe_example = run-IsSafe api calls fresh.settings

-- The join refused the second mask; the policy was accepted.
after_calls :
    let s = (run api calls fresh).store in
    (s.channel_mask ≡ 65280 ∷ 0 ∷ 0 ∷ 0 ∷ 2 ∷ 0 ∷ [])
    × (s.join_interval ≡ 30)
    × (s.channel_mask_set ≡ true)
unfolding set_bytes guarded_write ensure_loaded loads read_all candidate channel_mask_valid
    default_value check_thread setting_read setting_write run change set_channel_mask update_policy
    sub_band_channels set_join_active
after_calls = (refl, refl, refl)

-- US915, with RZI_LORAWAN_CAP_CHANNEL.
abbrev us : ℤ × ℕ
us = (pos 0, 1)

abbrev banded : Credentials api
banded = (set_sub_band api 64 us false 2 fresh).1

set_sub_band-get_sub_band_example :
    ((channel_plan 64 us).0 ≡ pos 0)
    × (get_sub_band api 64 us false true banded ≡ (pos 0, 2, banded))
unfolding set_bytes guarded_write ensure_loaded loads read_all candidate channel_mask_valid
    default_value check_thread setting_read setting_write set_sub_band channel_plan store_mask
    set_channel_mask all_channels sub_band_channels
set_sub_band-get_sub_band_example = set_sub_band-get_sub_band api 64 us 2 fresh refl

abbrev tuned : Credentials api
tuned = (set_fixed_channel api 64 us false 902500000 fresh).1

set_fixed_channel-get_fixed_channel_example :
    ((channel_plan 64 us).0 ≡ pos 0)
    × (get_fixed_channel api 64 us false true tuned ≡ (pos 0, 902500000, tuned))
unfolding set_bytes guarded_write ensure_loaded loads read_all candidate channel_mask_valid
    default_value check_thread setting_read setting_write set_fixed_channel channel_plan set_found
    set_channel_mask frequency_channel frequency_from channel_frequency
set_fixed_channel-get_fixed_channel_example =
    set_fixed_channel-get_fixed_channel api 64 us 902500000 fresh refl

-- A backend whose state counts the calls; it enables the data rates 0 to 3.
abbrev count : {A : Type 0} → Takes ℕ A
count = some (λ _ w. (pos 0, w + 1))

abbrev none_of : {A : Type 0} → Reads ℕ A
none_of = none

abbrev counting : NetworkOps
counting = record {
  W = ℕ;
  get_enabled_data_rates = some (λ w. (pos 0, 15, w));
  get_adr_op = none_of;
  get_data_rate_op = none_of;
  get_public_network_op = none_of;
  get_lbt_op = none_of;
  get_lbt_rssi_op = none_of;
  get_lbt_scan_time_op = none_of;
  get_adr_profile_op = none_of;
  get_nb_trans_op = none_of;
  get_adr_ack_op = none_of;
  get_join_backoff_op = none_of;
  get_duty_cycle_status_op = none_of;
  get_csma_op = none_of;
  get_csma_params_op = none_of;
  get_lost_connection_count_op = none_of;
  get_no_downlink_threshold_op = none_of;
  get_crystal_error_op = none_of;
  set_adr_op = count;
  set_data_rate_op = count;
  set_public_network_op = count;
  set_lbt_op = count;
  set_lbt_rssi_op = count;
  set_lbt_scan_time_op = count;
  set_adr_profile_op = count;
  set_nb_trans_op = count;
  set_adr_ack_op = count;
  set_join_data_rates_op = count;
  set_csma_op = count;
  set_csma_params_op = count;
  set_no_downlink_threshold_op = count;
  set_crystal_error_op = count;
  query_tx_possible_op = count;
}

perform-refused_example :
    (is_zero (perform counting (pos 0) (adr_ack 1 64) 5).0 ≡ false)
    × ((perform counting (pos 0) (adr_ack 1 64) 5).1 ≡ 5)
unfolding in_range
perform-refused_example = perform-refused counting (pos 0) (adr_ack 1 64) 5 refl

accepted : perform counting (pos 0) (data_rate 3) 5 ≡ (pos 0, 6)
unfolding perform set_data_rate send_data_rate check_uplink_data_rate check_enabled
accepted = refl

abbrev mac_ops : MacOps
mac_ops = record {
  W = ℕ;
  request_link_check_op = some (λ w. (pos 0, w + 1));
  request_device_time_op = none;
  get_network_time_op = none;
}

abbrev quiet : Mac mac_ops
quiet = record { link_check_mode = link_check_disabled; device_time_enabled = false; world = 0 }

request_link_check-on_uplink_example :
    let t = (request_link_check mac_ops (pos 0) link_check_once quiet).1 in
    ((true ≡ true)
      × (true ≡ true)
      × (t.link_check_mode ≡ link_check_disabled)
      × ((false ≡ true) ⊎ (on_uplink mac_ops t ≡ t)))
unfolding request_link_check
request_link_check-on_uplink_example =
    request_link_check-on_uplink mac_ops (pos 0) link_check_once quiet refl
