-- ===== src/Fuota/Lock.antt =====
-- The flash lock of the coordinator through its events.
use rzi.Prelude.{
  ℕ, ◌≡◌, ◌⊎◌, inl, inr, Bool, true, false, not, ◌&&◌, ℤ, pos, Option, none, some, get_or,
  if◌then◌else◌, is_zero, ◌==ℤ◌, arith, Bool-cases,
}
use rzi.Err.{Err, fail}
use rzi.Power.{lock_flash}
use rzi.Power.Balance.{
  IsBalanced, lock_get-IsBalanced, lock_put-IsBalanced, lock-count_get, lock-count_put,
}
use rzi.Lorawan.{BackendEvent, FuotaKind}
use rzi.Fuota.{
  schedule_keepalive, cancel_keepalive, State, idle, ready, transferring, complete, failed, Call,
  Platform, Fuota, same_state, wants_flash, hold_flash, set_state_locked, notify_complete,
  notify_session_started, work, detect_image_size, measure, read_size, log_image_head,
  copy_image_to_slot,
}
use rzi.Fuota.Session.{
  is_service_ready, sync_clock, handle_joined, auto_apply, transfer_done, session_start,
  session_end, handle_fuota_event, go_idle, handle, on_event, reboot,
}

abbrev pub count_of : Bool → ℕ
count_of true = 1
count_of false = 0

module _ (p : Platform) where
  -- The flag of the flash lock follows the state, and is the count of that lock, as long as no other
  -- client uses it.
  pub record IsLocked (s : Fuota p) : Type 0 where
    pub balanced : IsBalanced s.power
    pub once : get_or s.power.lock_counts lock_flash 0 ≡ count_of s.power_flash_held
    pub follows : s.power_flash_held ≡ (p.auto_lock && wants_flash p s.state)

  -- The lock is not held without the build's support.
  abbrev IsAdmitted : Fuota p → Type 0
  IsAdmitted s = (p.auto_lock ≡ true) ⊎ (s.power_flash_held ≡ false)

  hold_flash-IsBalanced :
      (next : State) (s : Fuota p) → IsBalanced s.power → IsBalanced (hold_flash p next s).power
  unfolding hold_flash
  hold_flash-IsBalanced next s b = ground (
    arith,
    b,
    lock_get-IsBalanced false lock_flash s.power b,
    lock_put-IsBalanced false lock_flash s.power b,
  )

  hold_flash-once :
      (next : State) (s : Fuota p)
      → IsBalanced s.power
      → get_or s.power.lock_counts lock_flash 0 ≡ count_of s.power_flash_held
      → IsAdmitted s
      → let t = hold_flash p next s in
        (get_or t.power.lock_counts lock_flash 0 ≡ count_of t.power_flash_held)
        × (t.power_flash_held ≡ (p.auto_lock && wants_flash p next))
  unfolding hold_flash
  hold_flash-once next s b once admitted =
      let up = lock-count_get lock_flash s.power b (omega arith) in
      let down = lock-count_put lock_flash s.power b (omega arith) in
      elim (Bool-cases s.power_flash_held) [
        | inl held ↦ ground (arith, once, admitted, held, down)
        | inr released ↦ ground (arith, once, admitted, released, up)
      ]

  hold_flash-state : (next : State) (s : Fuota p) → (hold_flash p next s).state ≡ s.state
  unfolding hold_flash
  hold_flash-state next s = ground arith

  -- What the calls that do not change the state leave alone.
  pub record Keeps (s t : Fuota p) : Type 0 where
    pub power : t.power ≡ s.power
    pub held : t.power_flash_held ≡ s.power_flash_held
    pub state : t.state ≡ s.state

  pub Keeps-IsLocked : {s t : Fuota p} → Keeps s t → IsLocked s → IsLocked t
  Keeps-IsLocked k w = record {
    balanced = rw k.power w.balanced;
    once = rw (k.power, k.held) w.once;
    follows = rw (k.held, k.state) w.follows;
  }

  set_state-shape :
      (next : State) (s : Fuota p)
      → (set_state_locked p next s ≡ s)
        ⊎ Keeps (hold_flash p next (record s { state = next })) (set_state_locked p next s)
  unfolding set_state_locked
  set_state-shape next s = elim (Bool-cases (same_state p s.state next)) [
    | inl same ↦ inl (ground (arith, same))
    | inr other ↦ inr (record {
      power = ground (arith, other);
      held = ground (arith, other);
      state = ground (arith, other);
    })
  ]

  pub set_state-IsLocked :
      (next : State) (s : Fuota p) → IsLocked s → IsLocked (set_state_locked p next s)
  set_state-IsLocked next s w =
      let s' = record s { state = next } in
      let locked : IsLocked (hold_flash p next s') = record {
        balanced = hold_flash-IsBalanced next s' w.balanced;
        once = (hold_flash-once next s' w.balanced w.once (ground (arith, w.follows))).0;
        follows =
            rw (hold_flash-state next s')
              (hold_flash-once next s' w.balanced w.once (ground (arith, w.follows))).1;
      } in
      elim (set_state-shape next s) [ inl same ↦ rw same w | inr kept ↦ Keeps-IsLocked kept locked ]

  same_state_sound : (a b : State) → same_state p a b ≡ true → a ≡ b
  same_state_sound a b e = ground (arith, e)

  hold_flash-fields :
      (next : State) (s : Fuota p)
      → ((hold_flash p next s).image_ready ≡ s.image_ready)
        × ((hold_flash p next s).started ≡ s.started)
  unfolding hold_flash
  hold_flash-fields next s = ground arith

  pub set_state-fields :
      (next : State) (s : Fuota p)
      → ((set_state_locked p next s).state ≡ next)
        × ((set_state_locked p next s).image_ready ≡ s.image_ready)
        × ((set_state_locked p next s).started ≡ s.started)
  unfolding set_state_locked
  set_state-fields next s = ground (
    arith,
    same_state_sound s.state next,
    hold_flash-state next (record s { state = next }),
    hold_flash-fields next (record s { state = next }),
  )

  pub work-fields :
      (c : Call) (s : Fuota p)
      → ((work p c s).image_ready ≡ s.image_ready) × ((work p c s).started ≡ s.started)
  unfolding work
  work-fields c s = ground arith

  work-IsLocked : (c : Call) (s : Fuota p) → IsLocked s → IsLocked (work p c s)
  unfolding work
  work-IsLocked c s w = ground (arith, w.balanced, w.once, w.follows)

  detect-Keeps : (n : ℕ) (s : Fuota p) → Keeps s (detect_image_size p n s).1
  unfolding detect_image_size measure read_size
  detect-Keeps n s = ground arith

  log-Keeps : (s : Fuota p) → Keeps s (log_image_head p s)
  unfolding log_image_head
  log-Keeps s = ground arith

  sync-Keeps : (s : Fuota p) → Keeps s (sync_clock p s).1
  unfolding sync_clock
  sync-Keeps s = ground arith

  notify-Keeps : (n : ℤ) (s : Fuota p) → Keeps s (notify_complete p n s)
  unfolding notify_complete
  notify-Keeps n s = ground arith

  session-Keeps : (s : Fuota p) → Keeps s (notify_session_started p s)
  unfolding notify_session_started
  session-Keeps s = ground arith

  auto-Keeps : (s : Fuota p) → Keeps s (auto_apply p s)
  unfolding auto_apply
  auto-Keeps s = ground arith

  pub copy-Keeps : (s : Fuota p) → Keeps s (copy_image_to_slot p s).1
  unfolding copy_image_to_slot
  copy-Keeps s = ground arith

  pub reboot-Keeps : (s : Fuota p) → Keeps s (reboot p s).1
  unfolding reboot
  reboot-Keeps s = ground arith

  choose-IsLocked :
      (b : Bool) {s t : Fuota p} → IsLocked s → IsLocked t → IsLocked (if b then s else t)
  choose-IsLocked true v w = v
  choose-IsLocked false v w = w

  joined-IsLocked : (s : Fuota p) → IsLocked s → IsLocked (handle_joined p s)
  unfolding handle_joined
  joined-IsLocked s w =
      let s' = record s { image_ready = false; image_size = s.expected_size; last_error = pos 0 } in
      let cleared : IsLocked s' = record {
        balanced = w.balanced;
        once = w.once;
        follows = w.follows;
      } in
      let synced = Keeps-IsLocked (sync-Keeps s') cleared in
      work-IsLocked schedule_keepalive _ (
        set_state-IsLocked ready _ (
          choose-IsLocked (is_zero (sync_clock p s').0) synced
            (record { balanced = synced.balanced; once = synced.once; follows = synced.follows })))

  done-IsLocked : (ok : Bool) (n : ℕ) (s : Fuota p) → IsLocked s → IsLocked (transfer_done p ok n s)
  unfolding transfer_done
  done-IsLocked true n s w =
      let (rc, s') = detect_image_size p n s in
      let found : IsLocked s' = Keeps-IsLocked (detect-Keeps n s) w in
      let marked : IsLocked (record s' {
        image_ready = true;
        last_error = if rc ==ℤ fail Err.no_data then pos 0 else rc;
      }) =
        record { balanced = found.balanced; once = found.once; follows = found.follows } in
      Keeps-IsLocked (auto-Keeps _) (
        Keeps-IsLocked (notify-Keeps _ _)
          (set_state-IsLocked complete _ (Keeps-IsLocked (log-Keeps _) marked)))
  done-IsLocked false n s w = work-IsLocked schedule_keepalive _ (
      Keeps-IsLocked (notify-Keeps _ _) (
        set_state-IsLocked failed _
          (record { balanced = w.balanced; once = w.once; follows = w.follows })))

  pub session-IsLocked : (s : Fuota p) → IsLocked s → IsLocked (session_start p s)
  unfolding session_start
  session-IsLocked s w =
      Keeps-IsLocked (session-Keeps _) (set_state-IsLocked transferring _ (work-IsLocked _ s w))

  pub end-IsLocked : (s : Fuota p) → IsLocked s → IsLocked (session_end p s)
  unfolding session_end
  end-IsLocked s w =
      choose-IsLocked (same_state p s.state transferring && not s.image_ready)
        (set_state-IsLocked ready _ (work-IsLocked _ s w)) w

  idle-IsLocked : (s : Fuota p) → IsLocked s → IsLocked (go_idle p s)
  unfolding go_idle
  idle-IsLocked s w =
      let c = work-IsLocked cancel_keepalive s w in
      set_state-IsLocked idle _
        (record { balanced = c.balanced; once = c.once; follows = c.follows })

  fuota_event-IsLocked :
      (kind : FuotaKind) (ok : Bool) (n : ℕ) (s : Fuota p)
      → IsLocked s
      → IsLocked (handle_fuota_event p (record { kind = kind; successful = ok; image_size = n }) s)
  unfolding handle_fuota_event
  fuota_event-IsLocked FuotaKind.clock_synced ok n s w = w
  fuota_event-IsLocked FuotaKind.session_started ok n s w = session-IsLocked s w
  fuota_event-IsLocked FuotaKind.session_ended ok n s w = end-IsLocked s w
  fuota_event-IsLocked FuotaKind.transfer_done ok n s w = done-IsLocked ok n s w
  fuota_event-IsLocked FuotaKind.reboot_requested ok n s w =
      choose-IsLocked s.image_ready (Keeps-IsLocked (auto-Keeps s) w) w

  handle-IsLocked : (e : BackendEvent) (s : Fuota p) → IsLocked s → IsLocked (handle p e s)
  unfolding handle
  handle-IsLocked BackendEvent.backend_joined s w = joined-IsLocked s w
  handle-IsLocked (BackendEvent.join_failed error) s w = idle-IsLocked s w
  handle-IsLocked (BackendEvent.state_changed state) s w =
      choose-IsLocked (is_service_ready p state && not (same_state p s.state idle))
        (idle-IsLocked s w) w
  handle-IsLocked (BackendEvent.fuota e) s w =
      fuota_event-IsLocked e.kind e.successful e.image_size s w
  handle-IsLocked _ s w = w

  -- An event keeps the flash lock in step with the state.
  pub on_event-IsLocked :
      (e : Option BackendEvent) (s : Fuota p) → IsLocked s → IsLocked (on_event p e s)
  unfolding on_event
  on_event-IsLocked none s w = w
  on_event-IsLocked (some e) s w = choose-IsLocked (not s.started) w (handle-IsLocked e s w)
