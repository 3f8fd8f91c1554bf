-- ===== src/Fuota/Session.antt =====
-- lorawan_fuota.c: the events of the LoRaWAN service and the public calls.
use rzi.Prelude.{
  ℕ, Bool, true, false, not, ◌&&◌, ◌||◌, List, [], ◌∷◌, ℤ, pos, Option, none, some, ◌%◌, ◌^◌, ◌==◌,
  ◌==ℤ◌, if◌then◌else◌, is_zero, is_null,
}
use rzi.Err.{Err, fail}
use rzi.Lorawan.{ServiceState, BackendEvent, FuotaKind, FuotaEvent}
use rzi.Fuota.{
  State, idle, ready, transferring, complete, failed, applying, Callbacks, schedule_keepalive,
  cancel_keepalive, submit_apply, Platform, Fuota, same_state, set_state_locked, notify_complete,
  notify_session_started, work, reader, detect_image_size, log_image_head, copy_image_to_slot,
}

abbrev pub callbacks_empty : Callbacks → Bool
callbacks_empty c =
    is_null c.state_changed && (is_null c.session_started && is_null c.complete_called)

module _ (p : Platform) where
  -- The clock synchronisation, when the backend has it.
  unfoldable pub sync_clock : Fuota p → ℤ × Fuota p
  sync_clock s = elim s.ops [
    | none ↦ (pos 0, s)
    | some o ↦ elim o.start_clock_sync [
      | none ↦ (pos 0, s)
      | some sync ↦ let (rc, w) = sync s.world in (rc, record s { world = w })
    ]
  ]

  unfoldable pub handle_joined : Fuota p → Fuota p
  unfolding sync_clock set_state_locked work
  handle_joined s =
      let (rc, s') =
        sync_clock
          (record s { image_ready = false; image_size = s.expected_size; last_error = pos 0 }) in
      work p schedule_keepalive
        (set_state_locked p ready (if is_zero rc then s' else record s' { last_error = rc }))

  -- The automatic installation, when the build has it.
  unfoldable pub auto_apply : Fuota p → Fuota p
  auto_apply s = if p.auto_apply then record s { calls = submit_apply ∷ s.calls } else s

  unfoldable pub transfer_done : Bool → ℕ → Fuota p → Fuota p
  unfolding detect_image_size log_image_head set_state_locked notify_complete work auto_apply
  transfer_done true reported s =
      let (rc, s') = detect_image_size p reported s in
      let s'' = record s' {
        image_ready = true;
        last_error = if rc ==ℤ fail Err.no_data then pos 0 else rc;
      } in
      auto_apply (notify_complete p (pos 0) (set_state_locked p complete (log_image_head p s'')))
  transfer_done false reported s = work p schedule_keepalive (
      notify_complete p (fail Err.io)
        (set_state_locked p failed (record s { image_ready = false; last_error = fail Err.io })))

  -- A session starts, and a session ends.
  unfoldable pub session_start : Fuota p → Fuota p
  unfolding work set_state_locked notify_session_started
  session_start s =
      notify_session_started p (set_state_locked p transferring (work p cancel_keepalive s))

  unfoldable pub session_end : Fuota p → Fuota p
  unfolding work set_state_locked
  session_end s =
      if same_state p s.state transferring && not s.image_ready
      then set_state_locked p ready (work p schedule_keepalive s)
      else s

  unfoldable pub handle_fuota_event : FuotaEvent → Fuota p → Fuota p
  unfolding session_start session_end transfer_done auto_apply
  handle_fuota_event e s = elim e.kind [
    | FuotaKind.clock_synced ↦ s
    | FuotaKind.session_started ↦ session_start s
    | FuotaKind.session_ended ↦ session_end s
    | FuotaKind.transfer_done ↦ transfer_done e.successful e.image_size s
    | FuotaKind.reboot_requested ↦ if s.image_ready then auto_apply s else s
  ]

  -- The session is gone.
  unfoldable pub go_idle : Fuota p → Fuota p
  unfolding work set_state_locked
  go_idle s = set_state_locked p idle (record (work p cancel_keepalive s) { image_ready = false })

  abbrev pub is_service_ready : ServiceState → Bool
  is_service_ready ServiceState.ready = true
  is_service_ready _ = false

  -- The switch of `fuota_on_event`.
  unfoldable pub handle : BackendEvent → Fuota p → Fuota p
  unfolding handle_joined go_idle handle_fuota_event
  handle BackendEvent.backend_joined s = handle_joined s
  handle (BackendEvent.join_failed error) s = go_idle s
  handle (BackendEvent.state_changed state) s =
      if is_service_ready state && not (same_state p s.state idle) then go_idle s else s
  handle (BackendEvent.fuota e) s = handle_fuota_event e s
  handle _ s = s

  unfoldable pub on_event : Option BackendEvent → Fuota p → Fuota p
  unfolding handle
  on_event none s = s
  on_event (some e) s = if not s.started then s else handle e s

  unfoldable pub register_callbacks : Bool → Option Callbacks → Fuota p → ℤ × Fuota p
  register_callbacks isr none s = if isr then (fail Err.isr, s) else (fail Err.invalid, s)
  register_callbacks isr (some c) s =
      if isr
      then (fail Err.isr, s)
      else if callbacks_empty c
      then (fail Err.invalid, s)
      else (pos 0, record s { callbacks = c })

  unfoldable pub start : Bool → Fuota p → ℤ × Fuota p
  start isr s =
      if isr
      then (fail Err.isr, s)
      else if s.started
      then (pos 0, s)
      else if is_null p.ops && not p.has_capability
      then (fail Err.not_supported, record s { ops = p.ops })
      else (pos 0, record s { ops = p.ops; started = true })

  -- The code, and the snapshot that goes through the pointer.
  unfoldable pub get_status : Bool → Bool → Fuota p → ℤ × Option (State × Bool × ℕ × ℤ)
  get_status isr null s =
      if isr
      then (fail Err.isr, none)
      else if null
      then (fail Err.invalid, none)
      else (pos 0, some (s.state, s.image_ready, s.image_size, s.last_error))

  unfoldable pub set_expected_size : Bool → ℕ → Fuota p → ℤ × Fuota p
  set_expected_size isr size s =
      if isr then (fail Err.isr, s) else if size == 0 then (fail Err.invalid, s) else (
        pos 0,
        record s {
          expected_size = size;
          image_size = if s.image_ready && (s.image_size == 0) then size else s.image_size;
        },
      )

  unfoldable pub read_image : Bool → ℕ → Bool → ℕ → Fuota p → ℤ × List ℕ × Fuota p
  read_image isr offset null size s =
      if isr
      then (fail Err.isr, [], s)
      else if null || (size == 0)
      then (fail Err.invalid, [], s)
      else if not s.image_ready
      then (fail Err.not_found, [], s)
      else elim (reader p s) [
        | none ↦ (fail Err.not_supported, [], s)
        | some read ↦
            let (rc, bytes, w) = read (offset % 2 ^ 32) size s.world in
            (rc, bytes, record s { world = w })
      ]

  -- The reboot at the end of `rzi_fuota_apply`.
  unfoldable pub reboot : Fuota p → ℤ × Fuota p
  reboot s = elim s.ops [
    | none ↦ (fail Err.not_supported, s)
    | some o ↦ elim o.reboot [
      | none ↦ (fail Err.not_supported, s)
      | some restart ↦ let (rc, w) = restart s.world in (rc, record s { world = w })
    ]
  ]

  -- `rzi_fuota_apply` up to the copy, for which it gives the mutex up: 0 if it goes on.
  unfoldable pub apply_begin : Bool → Fuota p → ℤ × Fuota p
  unfolding set_state_locked
  apply_begin isr s =
      if isr
      then (fail Err.isr, s)
      else if not s.image_ready
      then (fail Err.not_found, s)
      else if s.image_size == 0
      then (fail Err.no_data, s)
      else (
        if p.image_manager then pos 0 else fail Err.not_supported,
        set_state_locked p applying s,
      )

  -- Its part behind the copy, which gave `rc`.
  unfoldable pub apply_end : ℤ → Fuota p → ℤ × Fuota p
  unfolding set_state_locked reboot
  apply_end rc s =
      if not (is_zero rc)
      then (rc, set_state_locked p complete (record s { last_error = rc }))
      else reboot s

  -- `rzi_fuota_apply` when nothing happens during the copy.
  unfoldable pub apply : Bool → Fuota p → ℤ × Fuota p
  unfolding apply_begin copy_image_to_slot apply_end
  apply isr s =
      let (rc, s') = apply_begin isr s in
      let (rc', s'') = copy_image_to_slot p s' in
      if not (is_zero rc) then (rc, s') else apply_end rc' s''
