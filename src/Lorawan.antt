-- ===== src/Lorawan.antt =====
-- src/lorawan/lorawan.c: the backend-independent LoRaWAN service. This file has its types
-- (include/rzi/lorawan/lorawan.h, src/lorawan/backend/lorawan_backend.h), its state, and what it
-- calls. The children follow the parts of lorawan.c: `Events` for publishing and dispatch,
-- `Subscribers` for subscribers, `Lifecycle` for start, region, class and services, `Join` for the
-- join sequence, `Uplink` for sending and queries.
pub mod Events
pub mod Subscribers
pub mod Lifecycle
pub mod Join
pub mod Uplink
use rzi.Prelude.{ℕ, Bool, List, ℤ, Option}
use rzi.Power.{Power}

pub data ServiceState : Type 0 where
  stopped starting ready joining joined : ServiceState

pub data DeviceClass : Type 0 where
  class_a class_b class_c : DeviceClass

pub data Activation : Type 0 where
  otaa abp : Activation

-- `struct rzi_lorawan_backend_event.downlink`; signed fields are integers.
pub record Downlink : Type 0 where
  pub port : ℕ
  pub size : ℕ
  pub rssi_dbm : ℤ
  pub snr_quarter_db : ℤ
  pub flags : ℕ
  pub window : ℕ
  pub multicast_group : ℕ
  pub data_rate : ℕ
  pub frequency_hz : ℕ
  pub payload : List ℕ

pub data FuotaKind : Type 0 where
  clock_synced session_started session_ended transfer_done reboot_requested : FuotaKind

pub record FuotaEvent : Type 0 where
  pub kind : FuotaKind
  pub successful : Bool
  pub image_size : ℕ

-- `struct rzi_lorawan_backend_event`: the type selects the member of the union that is read, and
-- `error` is carried by the types that use it.
pub data BackendEvent : Type 0 where
  backend_ready backend_joined : BackendEvent
  join_failed : ℤ → BackendEvent
  tx_done : ℕ → ℤ → BackendEvent
  downlink : Downlink → BackendEvent
  backend_error : ℤ → BackendEvent
  state_changed : ServiceState → BackendEvent
  fuota : FuotaEvent → BackendEvent
  link_check : List ℕ → BackendEvent
  device_time : ℤ → BackendEvent
  class_b_changed : ℕ → BackendEvent
  duty_cycle : Bool → BackendEvent
  no_downlink : ℕ → BackendEvent

-- `struct rzi_lorawan_event`, what a subscriber gets.
pub data Event : Type 0 where
  event_ready event_joined : Event
  event_join_failed : ℤ → Event
  event_tx_done : ℕ → ℤ → Event
  event_down_data : Downlink → Event
  event_error : ℤ → Event
  event_state_changed : ServiceState → Event
  event_link_check : List ℕ → Event
  event_mac_time : ℤ → Event
  event_class_b : ℕ → Event
  event_duty_cycle : Bool → Event
  event_no_downlink : ℕ → Event

-- `struct rzi_lorawan_callbacks`: pointers are compared and called, so each is a number.
pub record Callbacks : Type 0 where
  pub on_event : Option ℕ
  pub user_data : ℕ

-- `struct rzi_lorawan_service`.
pub record Hooks : Type 0 where
  pub on_started : Option ℕ
  pub on_event : Option ℕ

-- A call that the service makes into its clients.
pub data Delivery : Type 0 where
  to_subscriber : ℕ → ℕ → Event → Delivery
  to_service : ℕ → BackendEvent → Delivery
  started_service : ℕ → Delivery

-- The world behind the service: the message queue of the kernel (a put fails when it is full, a get
-- gives `none` when it is empty), the selected backend, and the stored credentials and configuration
-- (src/lorawan/api). An operation that the backend leaves NULL is `none`. Flags and values that a C
-- operation returns through a pointer come with its code.
pub record Host : Type 1 where
  pub World : Type 0
  pub JoinConfig : Type 0
  pub max_callbacks : ℕ
  -- CONFIG_RZI_POWER and CONFIG_RZI_POWER_AUTO_SERVICE_LOCK are both set.
  pub auto_lock : Bool
  pub msgq_put : BackendEvent → World → ℤ × World
  pub msgq_get : World → Option (BackendEvent × World)
  pub capabilities : ℕ
  pub start : ℕ → Bool → World → ℤ × World
  pub join : JoinConfig → World → ℤ × World
  pub leave : World → ℤ × World
  pub send : ℕ → List ℕ → ℕ → World → ℤ × World
  pub set_class : DeviceClass → World → ℤ × World
  pub get_class : Option (World → ℤ × DeviceClass × World)
  pub is_joined : World → ℤ × Bool × World
  pub is_busy : World → ℤ × Bool × World
  pub send_empty : Option (Bool → ℕ → ℕ → World → ℤ × World)
  pub mac_commands_on_uplink : World → World
  pub get_activation : World → ℤ × Activation × World
  pub get_join_attempts : World → ℤ × ℕ × World
  pub build_config : World → ℤ × JoinConfig × World
  pub update_policy : ℤ → ℤ → ℤ → World → ℤ × World
  pub set_join_active : Bool → World → World
  pub config_set_region : ℕ → World → ℤ × World
  pub config_get_region : ℕ → World → ℤ × ℕ × World

-- The statics of lorawan.c. A callback slot that is not active is `none`. `calls` are the calls into
-- clients, the latest first. A callback that calls back into the service does so as a later step.
pub record Lorawan (h : Host) : Type 0 where
  pub services : List Hooks
  pub callback_slots : List (Option Callbacks)
  pub configured_region : ℕ
  pub configured_class : DeviceClass
  pub configured_join_backoff_bypass : Bool
  pub started : Bool
  pub overflow : Bool
  pub join_sequence_active : Bool
  pub join_retries_remaining : ℕ
  pub last_downlink_valid : Bool
  pub last_rssi_dbm : ℤ
  pub last_snr_quarter_db : ℤ
  pub power_class_c_held : Bool
  pub power : Power
  pub calls : List Delivery
  pub world : h.World
