-- ===== src/Network/Groups.antt =====
-- src/lorawan/api/lorawan_class_b.c, lorawan_multicast.c, lorawan_certification.c and
-- lorawan_session.c: Class B, multicast, certification and session queries, which the backend serves.
-- Each function checks first that the service is started, then its arguments, then that the backend
-- has the operation.
use rzi.Prelude.{
  ℕ, Bool, true, false, not, ◌&&◌, ℤ, pos, negsuc, List, Option, none, some, ltb, ltb_ℤ, ◌==◌,
  if◌then◌else◌, is_zero, is_null,
}
use rzi.Err.{Err, fail}
use rzi.Lorawan.{DeviceClass, class_a, Host, Lorawan}
use rzi.Lorawan.Lifecycle.{note_class}
use rzi.Credentials.{SettingsApi}
use rzi.Credentials.Policy.{config_get_net_id}
use rzi.Network.{Reads, Takes, read_op, take_op}
use rzi.Network.Limits.{last_data_rate}

-- A getter of these files: `rc` is what `rzi_lorawan_check_started` gives.
abbrev pub group_get : {W A : Type 0} → ℤ → Bool → A → Reads W A → W → ℤ × A × W
group_get rc has_room idle op w =
    if not (is_zero rc)
    then (rc, idle, w)
    else if not has_room
    then (fail Err.invalid, idle, w)
    else read_op rc idle op w

-- `struct rzi_lorawan_multicast_session`.
pub record Multicast : Type 0 where
  pub device_class : DeviceClass
  pub dev_addr : ℕ
  pub application_session_key : List ℕ
  pub network_session_key : List ℕ
  pub frequency_hz : ℕ
  pub data_rate : ℕ
  pub periodicity : ℕ
  pub group_id : ℤ

-- The operation tables of the groups; a member is `none` if it is NULL or its table is.
pub record GroupOps : Type 1 where
  pub W : Type 0
  pub get_ping_slot_periodicity_op : Reads W ℕ
  pub set_ping_slot_periodicity_op : Takes W ℕ
  pub get_beacon_frequency_op : Reads W ℕ
  pub get_beacon_time_op : Reads W ℕ
  pub get_beacon_data_rate_op : Reads W ℕ
  pub get_state_op : Reads W ℕ
  pub stop_op : Option (W → ℤ × W)
  pub add_op : Takes W Multicast
  pub remove_op : Takes W ℕ
  pub get_count_op : Reads W ℕ
  pub get_session_op : ℕ → Reads W Multicast
  pub clear_op : Option (W → ℤ × W)
  pub get_mode_op : Reads W Bool
  pub set_mode_op : Takes W Bool
  pub get_port_enabled_op : Reads W Bool
  pub set_port_enabled_op : Takes W Bool
  pub get_net_id_op : Reads W ℕ
  pub get_dev_nonce_op : Reads W ℕ
  pub set_dev_nonce_op : Takes W ℕ

-- An operation with no argument.
abbrev pub plain_op : {W : Type 0} → ℤ → Option (W → ℤ × W) → W → ℤ × W
plain_op rc none w = (if is_zero rc then fail Err.not_supported else rc, w)
plain_op rc (some op) w = if is_zero rc then op w else (rc, w)

abbrev pub is_class_a : DeviceClass → Bool
is_class_a class_a = true
is_class_a _ = false

-- The ranges of a session that can be added.
abbrev pub multicast_valid : Multicast → Bool
multicast_valid m =
    not (is_class_a m.device_class)
    && (not (ltb last_data_rate m.data_rate)
        && (not (m.frequency_hz == 0)
            && (not (ltb_ℤ m.group_id (negsuc 0)) && not (ltb_ℤ (pos 3) m.group_id))))

module _ (g : GroupOps) (rc : ℤ) where
  unfoldable pub get_ping_slot_periodicity : Bool → g.W → ℤ × ℕ × g.W
  get_ping_slot_periodicity has_room w = group_get rc has_room 0 g.get_ping_slot_periodicity_op w

  unfoldable pub set_ping_slot_periodicity : ℕ → g.W → ℤ × g.W
  set_ping_slot_periodicity periodicity w =
      if not (is_zero rc)
      then (rc, w)
      else if ltb 7 periodicity
      then (fail Err.invalid, w)
      else take_op rc g.set_ping_slot_periodicity_op periodicity w

  unfoldable pub get_beacon_frequency : Bool → g.W → ℤ × ℕ × g.W
  get_beacon_frequency has_room w = group_get rc has_room 0 g.get_beacon_frequency_op w

  unfoldable pub get_beacon_time : Bool → g.W → ℤ × ℕ × g.W
  get_beacon_time has_room w = group_get rc has_room 0 g.get_beacon_time_op w

  unfoldable pub get_beacon_data_rate : Bool → g.W → ℤ × ℕ × g.W
  get_beacon_data_rate has_room w = group_get rc has_room 0 g.get_beacon_data_rate_op w

  unfoldable pub get_class_b_state : Bool → g.W → ℤ × ℕ × g.W
  get_class_b_state has_room w = group_get rc has_room 0 g.get_state_op w

  -- On success the service notes Class A.
  unfoldable pub stop_class_b : (h : Host) → g.W × Lorawan h → ℤ × (g.W × Lorawan h)
  unfolding note_class
  stop_class_b h (w, s) =
      let (code, w') = plain_op rc g.stop_op w in
      (code, (w', if is_zero code then note_class h class_a s else s))

  -- A session that is NULL is `none`.
  unfoldable pub add_multicast_session : Option Multicast → g.W → ℤ × g.W
  add_multicast_session none w = (if is_zero rc then fail Err.invalid else rc, w)
  add_multicast_session (some m) w =
      if not (is_zero rc)
      then (rc, w)
      else if not (multicast_valid m)
      then (fail Err.invalid, w)
      else take_op rc g.add_op m w

  unfoldable pub remove_multicast_session : ℕ → g.W → ℤ × g.W
  remove_multicast_session dev_addr w = take_op rc g.remove_op dev_addr w

  unfoldable pub get_multicast_count : Bool → g.W → ℤ × ℕ × g.W
  get_multicast_count has_room w = group_get rc has_room 0 g.get_count_op w

  unfoldable pub get_multicast_session : Bool → Multicast → ℕ → g.W → ℤ × Multicast × g.W
  get_multicast_session has_room idle index w =
      group_get rc has_room idle (g.get_session_op index) w

  unfoldable pub clear_multicast_sessions : g.W → ℤ × g.W
  clear_multicast_sessions w = plain_op rc g.clear_op w

  unfoldable pub get_certification_mode : Bool → g.W → ℤ × Bool × g.W
  get_certification_mode has_room w = group_get rc has_room false g.get_mode_op w

  unfoldable pub set_certification_mode : Bool → g.W → ℤ × g.W
  set_certification_mode enabled w = take_op rc g.set_mode_op enabled w

  unfoldable pub get_certification_port_enabled : Bool → g.W → ℤ × Bool × g.W
  get_certification_port_enabled has_room w = group_get rc has_room false g.get_port_enabled_op w

  unfoldable pub set_certification_port_enabled : Bool → g.W → ℤ × g.W
  set_certification_port_enabled enabled w = take_op rc g.set_port_enabled_op enabled w

  unfoldable pub get_dev_nonce : Bool → g.W → ℤ × ℕ × g.W
  get_dev_nonce has_room w = group_get rc has_room 0 g.get_dev_nonce_op w

  unfoldable pub set_dev_nonce : ℕ → g.W → ℤ × g.W
  set_dev_nonce dev_nonce w = take_op rc g.set_dev_nonce_op dev_nonce w

  -- `joined` is what `rzi_lorawan_is_joined` gives; what the settings keep is the fallback.
  unfoldable pub get_net_id : (a : SettingsApi) → Bool → ℤ × Bool → g.W × a.C → ℤ × ℕ × (g.W × a.C)
  unfolding config_get_net_id
  get_net_id a has_room (code, is_joined) (w, c) =
      let (got, net_id, w') = read_op (pos 0) 0 g.get_net_id_op w in
      let live = is_zero code && (is_joined && not (is_null g.get_net_id_op)) in
      let (kept, stored, c') = config_get_net_id a c in
      if not (is_zero rc)
      then (rc, 0, (w, c))
      else if not has_room
      then (fail Err.invalid, 0, (w, c))
      else if live && is_zero got
      then (pos 0, net_id, (w', c))
      else (kept, stored, (if live then w' else w, c'))
