-- ===== src/Lorawan/Events.antt =====
-- lorawan.c, from `publish` to the dispatcher's loop.
pub mod Fanout
pub mod Sequence
use rzi.Prelude.{
  ℕ, zero, suc, ◌+◌, ◌-◌, Bool, true, false, not, ◌&&◌, ◌||◌, List, [], ◌∷◌, ◌++◌, map, ℤ, pos,
  negsuc, Option, none, some, ltb, ◌==◌, if◌then◌else◌, is_zero, is_null,
}
use rzi.Err.{Err, fail}
use rzi.Lorawan.{
  ServiceState, ready, BackendEvent, backend_ready, backend_joined, join_failed, tx_done, downlink,
  backend_error, state_changed, fuota, link_check, device_time, class_b_changed, duty_cycle,
  no_downlink, Event, event_ready, event_joined, event_join_failed, event_tx_done, event_down_data,
  event_error, event_state_changed, event_link_check, event_mac_time, event_class_b,
  event_duty_cycle, event_no_downlink, Callbacks, Hooks, Delivery, to_subscriber, to_service,
  started_service, Host, Lorawan,
}

module _ (h : Host) where
  unfoldable pub publish : BackendEvent → Lorawan h → Lorawan h
  publish event s =
      let (rc, w) = h.msgq_put event s.world in
      record s { world = w; overflow = if is_zero rc then s.overflow else true }

  unfoldable pub publish_state : ServiceState → Lorawan h → Lorawan h
  unfolding publish
  publish_state state s = publish (state_changed state) s

  -- `event_from_backend`: what is delivered, if anything; a downlink is remembered.
  unfoldable pub event_from_backend : BackendEvent → Lorawan h → Option Event × Lorawan h
  event_from_backend backend_ready s = (some event_ready, s)
  event_from_backend backend_joined s = (some event_joined, s)
  event_from_backend (join_failed error) s =
      (some (event_join_failed (if not (is_zero error) then error else fail Err.timeout)), s)
  event_from_backend (tx_done status error) s = (some (event_tx_done status error), s)
  event_from_backend (downlink d) s = (
    some (event_down_data d),
    record s {
      last_rssi_dbm = d.rssi_dbm;
      last_snr_quarter_db = d.snr_quarter_db;
      last_downlink_valid = true;
    },
  )
  event_from_backend (backend_error error) s = (some (event_error error), s)
  event_from_backend (state_changed state) s = (some (event_state_changed state), s)
  event_from_backend (link_check result) s = (some (event_link_check result), s)
  event_from_backend (device_time error) s = (some (event_mac_time error), s)
  event_from_backend (class_b_changed state) s = (some (event_class_b state), s)
  event_from_backend (duty_cycle limited) s = (some (event_duty_cycle limited), s)
  event_from_backend (no_downlink reasons) s = (some (event_no_downlink reasons), s)
  event_from_backend (fuota f) s = (none, s)

  unfoldable pub clear_join_sequence : Lorawan h → Lorawan h
  clear_join_sequence s = record s {
    join_sequence_active = false;
    join_retries_remaining = 0;
    world = h.set_join_active false s.world;
  }

  -- A failed attempt of an active sequence: counted, or the last one.
  unfoldable pub fail_attempt : Lorawan h → Bool × Lorawan h
  unfolding clear_join_sequence publish_state
  fail_attempt s =
      if ltb 0 s.join_retries_remaining
      then (true, record s { join_retries_remaining = s.join_retries_remaining - 1 })
      else let s' = clear_join_sequence s in
        let s'' = record s' { world = (h.leave s'.world).1 } in (false, publish_state ready s'')

  unfoldable pub swallow_join_event : BackendEvent → Lorawan h → Bool × Lorawan h
  unfolding clear_join_sequence fail_attempt
  swallow_join_event backend_joined s = (false, clear_join_sequence s)
  swallow_join_event (join_failed error) s =
      if not s.join_sequence_active then (false, s) else fail_attempt s
  swallow_join_event _ s = (false, s)

  -- The active slots, in order.
  abbrev pub subscribers : List (Option Callbacks) → List Callbacks
  subscribers [] = []
  subscribers (none ∷ slots) = subscribers slots
  subscribers (some c ∷ slots) = c ∷ subscribers slots

  -- The calls of the first loop of `dispatch`, the latest first.
  abbrev pub deliver : Event → List Callbacks → List Delivery → List Delivery
  deliver event [] calls = calls
  deliver event (c ∷ cs) calls =
      deliver event cs
        (elim c.on_event [ none ↦ calls | some f ↦ to_subscriber f c.user_data event ∷ calls ])

  abbrev pub deliver_to_services : BackendEvent → List Hooks → List Delivery → List Delivery
  deliver_to_services event [] calls = calls
  deliver_to_services event (v ∷ vs) calls =
      deliver_to_services event vs
        (elim v.on_event [ none ↦ calls | some f ↦ to_service f event ∷ calls ])

  -- The part of `dispatch` behind the join sequence; `to` is the snapshot of the subscribers.
  unfoldable pub deliver_all : BackendEvent → List Callbacks → Lorawan h → Lorawan h
  unfolding event_from_backend
  deliver_all event to s =
      let (out, s') = event_from_backend event s in
      let calls : List Delivery = elim out [ none ↦ s'.calls | some e ↦ deliver e to s'.calls ] in
      record s' { calls = deliver_to_services event s'.services calls }

  unfoldable pub dispatch : BackendEvent → Lorawan h → Lorawan h
  unfolding swallow_join_event deliver_all
  dispatch event s =
      let (swallowed, s') = swallow_join_event event s in
      if swallowed then s' else deliver_all event (subscribers s.callback_slots) s'

  -- One round of the dispatcher's loop; without an event it waits.
  unfoldable pub dispatcher_round : Lorawan h → Lorawan h
  unfolding dispatch
  dispatcher_round s = elim (h.msgq_get s.world) [
    | none ↦ s
    | some (event, w) ↦
        let s' = dispatch event (record s { world = w }) in
        if s'.overflow
        then dispatch (backend_error (fail Err.overflow)) (record s' { overflow = false })
        else s'
  ]
