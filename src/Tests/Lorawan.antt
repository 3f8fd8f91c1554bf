-- ===== src/Tests/Lorawan.antt =====
-- The LoRaWAN service over a small backend with a queue of three events.
use rzi.Prelude.{
  ℕ, ◌≡◌, ◌≢◌, ◌⊎◌, ◌||◌, refl, ap, Bool, true, false, List, [], ◌∷◌, ◌++◌, pos, negsuc, none, some,
  length, is_zero, ltb, if◌then◌else◌, arith,
}
use rzi.Err.{Err, fail}
use rzi.Power.{initial}
use rzi.Power.Balance.{initial-IsBalanced}
use rzi.Lorawan.{
  Host, Lorawan, BackendEvent, Downlink, downlink, join_failed, backend_joined, backend_error,
  event_error, event_join_failed, class_a, class_c, otaa, Callbacks,
}
use rzi.Lorawan.Events.{subscribers, deliver, deliver_to_services, dispatch, dispatcher_round}
use rzi.Lorawan.Events.Sequence.{dispatch_failures, dispatch_failures-last}
use rzi.Lorawan.Events.Fanout.{dispatcher_round-overflow}
use rzi.Lorawan.Subscribers.{is_registered, same_subscriber, register_callbacks}
use rzi.Lorawan.Subscribers.Slots.{Distinct, has_room, register_callbacks_lem}
use rzi.Lorawan.Lifecycle.{set_class, check_started}
use rzi.Lorawan.Lifecycle.Power.{IsHeldOnce, set_class-IsHeldOnce}
use rzi.Lorawan.Join.{join, leave}
use rzi.Lorawan.Join.Attempts.{join-starts, join-leave-busy}
use rzi.Lorawan.Uplink.{check_joined, send}
use rzi.Lorawan.Uplink.Guards.{IsAllowed, send-guarded}

-- The queue, whether a session is active, and the payloads that were sent.
record Device : Type 0 where
  queue : List BackendEvent
  in_session : Bool
  sent : List (List ℕ)

abbrev host : Host
host = record {
  World = Device;
  JoinConfig = ℕ;
  max_callbacks = 2;
  auto_lock = true;
  msgq_put = λ e w.
      if ltb (length w.queue) 3
      then (pos 0, record w { queue = w.queue ++ (e ∷ []) })
      else (negsuc 34, w);
  msgq_get = λ w. elim w.queue [ [] ↦ none | e ∷ es ↦ some (e, record w { queue = es }) ];
  capabilities = 21;
  start = λ region bypass w. (pos 0, w);
  join = λ c w. (pos 0, w);
  leave = λ w. (pos 0, record w { in_session = false });
  send = λ port payload type w. (pos 0, record w { sent = payload ∷ w.sent });
  set_class = λ c w. (pos 0, w);
  get_class = none;
  is_joined = λ w. (pos 0, w.in_session, w);
  is_busy = λ w. (pos 0, false, w);
  send_empty = none;
  mac_commands_on_uplink = λ w. w;
  get_activation = λ w. (pos 0, otaa, w);
  get_join_attempts = λ w. (pos 0, 2, w);
  build_config = λ w. (pos 0, 0, w);
  update_policy = λ a b c w. (pos 0, w);
  set_join_active = λ a w. w;
  config_set_region = λ r w. (pos 0, w);
  config_get_region = λ r w. (pos 0, 0, w);
}

abbrev alice : Callbacks
alice = record { on_event = some 1; user_data = 10 }

abbrev bob : Callbacks
bob = record { on_event = some 2; user_data = 20 }

abbrev device : List BackendEvent → Bool → Device
device queue in_session = record { queue = queue; in_session = in_session; sent = [] }

-- A service with one subscriber: whether it is started, in a join sequence with two retries left, and
-- the world.
abbrev service : Bool → Bool → Device → Lorawan host
service started joining w = record {
  services = record { on_started = none; on_event = some 7 } ∷ [];
  callback_slots = some alice ∷ none ∷ [];
  configured_region = 0;
  configured_class = class_a;
  configured_join_backoff_bypass = false;
  started = started;
  overflow = false;
  join_sequence_active = joining;
  join_retries_remaining = if joining then 2 else 0;
  last_downlink_valid = false;
  last_rssi_dbm = pos 0;
  last_snr_quarter_db = pos 0;
  power_class_c_held = false;
  power = initial;
  calls = [];
  world = w;
}

abbrev joining_service : Lorawan host
joining_service = service true true (device [] false)

abbrev idle_service : Lorawan host
idle_service = service true false (device [] false)

abbrev joined_service : Lorawan host
joined_service = service true false (device [] true)

dispatch_failures-last_example :
    let t = dispatch_failures host 3 (pos 0) joining_service in
    (t.join_sequence_active ≡ false)
    × (t.join_retries_remaining ≡ 0)
    × (t.calls
        ≡ deliver_to_services host (join_failed (pos 0)) joining_service.services (
            deliver host
              (event_join_failed (if is_zero (pos 0) then fail Err.timeout else pos 0))
              (subscribers host joining_service.callback_slots)
              joining_service.calls))
dispatch_failures-last_example = dispatch_failures-last host (pos 0) 2 joining_service refl refl

abbrev received : Downlink
received = record {
  port = 2;
  size = 1;
  rssi_dbm = negsuc 89;
  snr_quarter_db = pos 30;
  flags = 0;
  window = 1;
  multicast_group = 0;
  data_rate = 5;
  frequency_hz = 868100000;
  payload = 9 ∷ [];
}

abbrev events : List BackendEvent
events = downlink received ∷ join_failed (pos 0) ∷ []

-- The latest failure of a sequence without retries while the queue is full.
abbrev crowded : Lorawan host
crowded =
    record (service true true (
      device (join_failed (pos 0) ∷ backend_joined ∷ backend_joined ∷ backend_joined ∷ []) false)) {
        join_retries_remaining = 0;
      }

abbrev behind : Device
behind = device (backend_joined ∷ backend_joined ∷ backend_joined ∷ []) false

dispatcher_round-overflow_example :
    let t = dispatch host (join_failed (pos 0)) (record crowded { world = behind }) in
    ((dispatcher_round host crowded).overflow ≡ false)
    × ((dispatcher_round host crowded).calls ≡ (
        if t.overflow
        then deliver_to_services host (backend_error (fail Err.overflow)) t.services (
            deliver host
              (event_error (fail Err.overflow))
              (subscribers host t.callback_slots)
              t.calls)
        else t.calls))
dispatcher_round-overflow_example =
    dispatcher_round-overflow host (join_failed (pos 0)) crowded behind refl

register_callbacks_lem_example :
    let (rc, t) = register_callbacks host false (some bob) idle_service in
    let slots = idle_service.callback_slots in
    ((is_registered bob slots ≡ true) × (rc ≡ fail Err.already) × (t ≡ idle_service))
    ⊎ ((is_registered bob slots ≡ false)
        × (has_room slots ≡ false)
        × (rc ≡ fail Err.no_resource)
        × (t ≡ idle_service))
    ⊎ ((is_registered bob slots ≡ false)
        × (has_room slots ≡ true)
        × (rc ≡ pos 0)
        × (length t.callback_slots ≡ length slots)
        × Distinct t.callback_slots
        × (is_registered alice t.callback_slots
            ≡ (same_subscriber bob alice || is_registered alice slots)))
register_callbacks_lem_example = register_callbacks_lem host bob alice idle_service refl (refl, tt)

abbrev with_bob : Lorawan host
with_bob = record idle_service { callback_slots = some alice ∷ some bob ∷ [] }

bob_registered : register_callbacks host false (some bob) idle_service ≡ (pos 0, with_bob)
unfolding register_callbacks
bob_registered = refl

IsHeldOnce-service : (w : Device) → IsHeldOnce host (service true false w)
unfolding initial
IsHeldOnce-service w = record { balanced = initial-IsBalanced; once = refl }

set_class-IsHeldOnce_example : IsHeldOnce host (set_class host false class_c idle_service).1
set_class-IsHeldOnce_example =
    set_class-IsHeldOnce host false class_c idle_service (IsHeldOnce-service (device [] false))

class_c_set : (set_class host false class_c idle_service).0 ≡ pos 0
unfolding set_class check_started
class_c_set = refl

abbrev stopped_service : Lorawan host
stopped_service = service false false (device [] false)

join-starts_example :
    let (rc, t) = join host false (pos 1) (pos 0) (pos 8) (pos 2) idle_service in
    let w = (host.update_policy (pos 0) (pos 8) (pos 2) idle_service.world).1 in
    (t.join_sequence_active ≡ is_zero rc)
    × ((rc ≢ pos 0)
        ⊎ (t.join_retries_remaining ≡ (host.get_join_attempts (host.get_activation w).2).1))
join-starts_example = join-starts host (pos 0) (pos 8) (pos 2) idle_service refl

join-leave-busy_example :
    let (rc, t) = leave host false joining_service in
    (rc ≡ pos 0) × (join host false (pos 1) (pos 0) (pos 8) (pos 2) t ≡ (fail Err.busy, t))
join-leave-busy_example =
    join-leave-busy host (pos 0) (pos 8) (pos 2) joining_service refl refl refl

joined-IsAllowed : IsAllowed host false 2 2 1 joined_service
joined-IsAllowed = record {
  from_thread = refl;
  port_low = omega arith;
  port_high = omega arith;
  size_fits = omega arith;
  known_type = omega arith;
  up = refl;
  answered = refl;
  in_session = refl;
}

sent : (send host false 2 (some (5 ∷ 6 ∷ [])) 2 1 joined_service).1.world.sent ≡ (5 ∷ 6 ∷ []) ∷ []
unfolding send check_joined check_started
sent = refl

send_changes :
    (send host false 2 (some (5 ∷ 6 ∷ [])) 2 1 joined_service).1.world ≢ joined_service.world
send_changes e = cc (sent, ap Device.sent e)

send-guarded_example : IsAllowed host false 2 2 1 joined_service
send-guarded_example =
    send-guarded host false 2 (some (5 ∷ 6 ∷ [])) 2 1 joined_service send_changes send_changes
