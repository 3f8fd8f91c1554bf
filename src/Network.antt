-- ===== src/Network.antt =====
-- src/lorawan/api/lorawan_network.c: the network parameters, which the backend keeps. Each function
-- checks its arguments and that the service is started, and then calls the backend. `Limits` has the
-- setters with a range, `Groups` and `Mac` the other parts of the interface that forward to the
-- backend.
pub mod Limits
pub mod Groups
pub mod Mac
pub mod Gate
use rzi.Prelude.{
  ℕ, Bool, true, false, List, [], ◌∷◌, ℤ, pos, Option, none, some, if◌then◌else◌, is_zero,
}
use rzi.Err.{Err, fail}

-- A backend operation that reads, and one that takes an argument; NULL is `none`.
abbrev pub Reads : Type 0 → Type 0 → Type 0
Reads W A = Option (W → ℤ × A × W)

abbrev pub Takes : Type 0 → Type 0 → Type 0
Takes W A = Option (A → W → ℤ × W)

-- `struct rzi_lorawan_network_ops`. A member is `none` if it is NULL or the whole table is.
pub record NetworkOps : Type 1 where
  pub W : Type 0
  pub get_enabled_data_rates : Reads W ℕ
  pub get_adr_op : Reads W Bool
  pub get_data_rate_op : Reads W ℕ
  pub get_public_network_op : Reads W Bool
  pub get_lbt_op : Reads W Bool
  pub get_lbt_rssi_op : Reads W ℤ
  pub get_lbt_scan_time_op : Reads W ℕ
  pub get_adr_profile_op : Reads W ℕ
  pub get_nb_trans_op : Reads W ℕ
  pub get_adr_ack_op : Reads W (ℕ × ℕ)
  pub get_join_backoff_op : Reads W ℕ
  pub get_duty_cycle_status_op : Reads W ℤ
  pub get_csma_op : Reads W Bool
  pub get_csma_params_op : Reads W (List ℕ)
  pub get_lost_connection_count_op : Reads W ℕ
  pub get_no_downlink_threshold_op : Reads W ℕ
  pub get_crystal_error_op : Reads W ℕ
  pub set_adr_op : Takes W Bool
  pub set_data_rate_op : Takes W ℕ
  pub set_public_network_op : Takes W Bool
  pub set_lbt_op : Takes W Bool
  pub set_lbt_rssi_op : Takes W ℤ
  pub set_lbt_scan_time_op : Takes W ℕ
  pub set_adr_profile_op : Takes W (ℕ × List ℕ)
  pub set_nb_trans_op : Takes W ℕ
  pub set_adr_ack_op : Takes W (ℕ × ℕ)
  pub set_join_data_rates_op : Takes W (List ℕ)
  pub set_csma_op : Takes W Bool
  pub set_csma_params_op : Takes W (List ℕ)
  pub set_no_downlink_threshold_op : Takes W ℕ
  pub set_crystal_error_op : Takes W ℕ
  pub query_tx_possible_op : Takes W ℕ

-- `rc` is what `rzi_lorawan_check_started` gives. A getter that gives no value gives `idle`.
abbrev pub read_op : {W A : Type 0} → ℤ → A → Reads W A → W → ℤ × A × W
read_op rc idle none w = (if is_zero rc then fail Err.not_supported else rc, idle, w)
read_op rc idle (some op) w = if is_zero rc then op w else (rc, idle, w)

abbrev pub take_op : {W A : Type 0} → ℤ → Takes W A → A → W → ℤ × W
take_op rc none v w = (if is_zero rc then fail Err.not_supported else rc, w)
take_op rc (some op) v w = if is_zero rc then op v w else (rc, w)

-- The getters of lorawan_network.c check first that the destination is not NULL.
abbrev pub network_get : {W A : Type 0} → ℤ → Bool → A → Reads W A → W → ℤ × A × W
network_get rc has_room idle op w =
    if has_room then read_op rc idle op w else (fail Err.invalid, idle, w)

-- `unsupported`, which the parameters share that no backend implements.
unfoldable pub unsupported : ℤ → ℤ
unsupported rc = if is_zero rc then fail Err.not_supported else rc

module _ (n : NetworkOps) (rc : ℤ) where
  abbrev pub get_adr : Bool → n.W → ℤ × Bool × n.W
  get_adr has_room w = network_get rc has_room false n.get_adr_op w

  abbrev pub get_data_rate : Bool → n.W → ℤ × ℕ × n.W
  get_data_rate has_room w = network_get rc has_room 0 n.get_data_rate_op w

  abbrev pub get_public_network : Bool → n.W → ℤ × Bool × n.W
  get_public_network has_room w = network_get rc has_room false n.get_public_network_op w

  abbrev pub get_lbt : Bool → n.W → ℤ × Bool × n.W
  get_lbt has_room w = network_get rc has_room false n.get_lbt_op w

  abbrev pub get_lbt_rssi : Bool → n.W → ℤ × ℤ × n.W
  get_lbt_rssi has_room w = network_get rc has_room (pos 0) n.get_lbt_rssi_op w

  abbrev pub get_lbt_scan_time : Bool → n.W → ℤ × ℕ × n.W
  get_lbt_scan_time has_room w = network_get rc has_room 0 n.get_lbt_scan_time_op w

  abbrev pub get_adr_profile : Bool → n.W → ℤ × ℕ × n.W
  get_adr_profile has_room w = network_get rc has_room 0 n.get_adr_profile_op w

  abbrev pub get_nb_trans : Bool → n.W → ℤ × ℕ × n.W
  get_nb_trans has_room w = network_get rc has_room 0 n.get_nb_trans_op w

  abbrev pub get_adr_ack : Bool → n.W → ℤ × (ℕ × ℕ) × n.W
  get_adr_ack has_room w = network_get rc has_room (0, 0) n.get_adr_ack_op w

  abbrev pub get_join_backoff : Bool → n.W → ℤ × ℕ × n.W
  get_join_backoff has_room w = network_get rc has_room 0 n.get_join_backoff_op w

  abbrev pub get_duty_cycle_status : Bool → n.W → ℤ × ℤ × n.W
  get_duty_cycle_status has_room w = network_get rc has_room (pos 0) n.get_duty_cycle_status_op w

  abbrev pub get_csma : Bool → n.W → ℤ × Bool × n.W
  get_csma has_room w = network_get rc has_room false n.get_csma_op w

  abbrev pub get_csma_params : Bool → n.W → ℤ × (List ℕ) × n.W
  get_csma_params has_room w = network_get rc has_room [] n.get_csma_params_op w

  abbrev pub get_lost_connection_count : Bool → n.W → ℤ × ℕ × n.W
  get_lost_connection_count has_room w = network_get rc has_room 0 n.get_lost_connection_count_op w

  abbrev pub get_no_downlink_threshold : Bool → n.W → ℤ × ℕ × n.W
  get_no_downlink_threshold has_room w = network_get rc has_room 0 n.get_no_downlink_threshold_op w

  abbrev pub get_crystal_error : Bool → n.W → ℤ × ℕ × n.W
  get_crystal_error has_room w = network_get rc has_room 0 n.get_crystal_error_op w

  abbrev pub set_adr : Bool → n.W → ℤ × n.W
  set_adr v w = take_op rc n.set_adr_op v w

  abbrev pub set_public_network : Bool → n.W → ℤ × n.W
  set_public_network v w = take_op rc n.set_public_network_op v w

  abbrev pub set_lbt : Bool → n.W → ℤ × n.W
  set_lbt v w = take_op rc n.set_lbt_op v w

  abbrev pub set_lbt_rssi : ℤ → n.W → ℤ × n.W
  set_lbt_rssi v w = take_op rc n.set_lbt_rssi_op v w

  abbrev pub set_csma : Bool → n.W → ℤ × n.W
  set_csma v w = take_op rc n.set_csma_op v w

  abbrev pub set_no_downlink_threshold : ℕ → n.W → ℤ × n.W
  set_no_downlink_threshold v w = take_op rc n.set_no_downlink_threshold_op v w

  abbrev pub set_crystal_error : ℕ → n.W → ℤ × n.W
  set_crystal_error v w = take_op rc n.set_crystal_error_op v w

  abbrev pub query_tx_possible : ℕ → n.W → ℤ × n.W
  query_tx_possible size w = take_op rc n.query_tx_possible_op size w
