-- ===== src/Fuota/Runs.antt =====
-- Runs of the coordinator: calls and events in any order, and the sessions among them.
use rzi.Prelude.{
  refl, ◌∙◌, ℕ, ◌≡◌, Bool, true, false, not, ◌&&◌, List, [], ◌∷◌, ℤ, Option, none, some,
  if◌then◌else◌, is_zero, ◌==◌, arith,
}
use rzi.Lorawan.{BackendEvent, FuotaKind}
use rzi.Fuota.{
  schedule_keepalive, cancel_keepalive, ready, transferring, complete, applying, Callbacks,
  Platform, Fuota, wants_flash, notify_session_started, work, copy_image_to_slot,
}
use rzi.Fuota.Session.{
  session_start, session_end, handle_fuota_event, handle, on_event, register_callbacks, start,
  set_expected_size, read_image, reboot, apply_begin, apply_end, apply,
}
use rzi.Fuota.Lock.{
  Keeps-IsLocked, set_state-IsLocked, set_state-fields, work-fields, copy-Keeps, reboot-Keeps,
  session-IsLocked, end-IsLocked, on_event-IsLocked, Keeps, IsLocked,
}

-- A client's call, or an event from the service. An installation gives the mutex up for its copy, so
-- that its parts are also steps of their own, with anything between them.
pub data Request : Type 0 where
  event : Option BackendEvent → Request
  register : Bool → Option Callbacks → Request
  begin : Bool → Request
  expect_size : Bool → ℕ → Request
  read : Bool → ℕ → Bool → ℕ → Request
  install : Bool → Request
  install_begin : Bool → Request
  install_copy : Request
  install_end : ℤ → Request

module _ (p : Platform) where
  choose-result :
      (b : Bool) (x y : ℤ × Fuota p)
      → IsLocked p x.1
      → IsLocked p y.1
      → IsLocked p (if b then x else y).1
  choose-result true x y v w = v
  choose-result false x y v w = w

  apply_begin-IsLocked :
      (isr : Bool) (s : Fuota p) → IsLocked p s → IsLocked p (apply_begin p isr s).1
  unfolding apply_begin
  apply_begin-IsLocked isr s w = choose-result isr _ _ w (
      choose-result (not s.image_ready) _ _ w
        (choose-result (s.image_size == 0) _ (_, _) w (set_state-IsLocked p applying s w)))

  apply_end-IsLocked : (rc : ℤ) (s : Fuota p) → IsLocked p s → IsLocked p (apply_end p rc s).1
  unfolding apply_end
  apply_end-IsLocked rc s w =
      choose-result (not (is_zero rc)) (_, _) (reboot p s)
        (set_state-IsLocked p complete (record s { last_error = rc })
          (record { balanced = w.balanced; once = w.once; follows = w.follows }))
        (Keeps-IsLocked p (reboot-Keeps p s) w)

  apply-IsLocked : (isr : Bool) (s : Fuota p) → IsLocked p s → IsLocked p (apply p isr s).1
  unfolding apply
  apply-IsLocked isr s w =
      let (rc, s') = apply_begin p isr s in
      let begun = apply_begin-IsLocked isr s w in
      let (rc', s'') = copy_image_to_slot p s' in
      choose-result (not (is_zero rc)) (rc, s') (apply_end p rc' s'') begun
        (apply_end-IsLocked rc' s'' (Keeps-IsLocked p (copy-Keeps p s') begun))

  pub serve : Request → Fuota p → Fuota p
  serve (event e) s = on_event p e s
  serve (register isr c) s = (register_callbacks p isr c s).1
  serve (begin isr) s = (start p isr s).1
  serve (expect_size isr n) s = (set_expected_size p isr n s).1
  serve (read isr offset null n) s = (read_image p isr offset null n s).2
  serve (install isr) s = (apply p isr s).1
  serve (install_begin isr) s = (apply_begin p isr s).1
  serve install_copy s = (copy_image_to_slot p s).1
  serve (install_end rc) s = (apply_end p rc s).1

  pub run : List Request → Fuota p → Fuota p
  unfolding serve
  run [] s = s
  run (r ∷ rs) s = run rs (serve r s)

  register-Keeps :
      (isr : Bool) (c : Option Callbacks) (s : Fuota p) → Keeps p s (register_callbacks p isr c s).1
  unfolding register_callbacks
  register-Keeps isr none s = ground arith
  register-Keeps isr (some c) s = ground arith

  start-Keeps : (isr : Bool) (s : Fuota p) → Keeps p s (start p isr s).1
  unfolding start
  start-Keeps isr s = ground arith

  expect-Keeps : (isr : Bool) (n : ℕ) (s : Fuota p) → Keeps p s (set_expected_size p isr n s).1
  unfolding set_expected_size
  expect-Keeps isr n s = ground arith

  read-Keeps :
      (isr : Bool) (o : ℕ) (null : Bool) (n : ℕ) (s : Fuota p)
      → Keeps p s (read_image p isr o null n s).2
  unfolding read_image
  read-Keeps isr o null n s = ground arith

  -- From a state where it is so, through any calls and events in any order, the coordinator holds
  -- one reference of the flash lock while it transfers or installs an image and none in the other
  -- states, in a build that has the lock and where no one else uses it; in another build it never
  -- holds one.
  pub run-IsLocked : (rs : List Request) (s : Fuota p) → IsLocked p s → IsLocked p (run rs s)
  unfolding run serve
  run-IsLocked [] s w = w
  run-IsLocked (event e ∷ rs) s w = run-IsLocked rs _ (on_event-IsLocked p e s w)
  run-IsLocked (register isr c ∷ rs) s w =
      run-IsLocked rs _ (Keeps-IsLocked p (register-Keeps isr c s) w)
  run-IsLocked (begin isr ∷ rs) s w = run-IsLocked rs _ (Keeps-IsLocked p (start-Keeps isr s) w)
  run-IsLocked (expect_size isr n ∷ rs) s w =
      run-IsLocked rs _ (Keeps-IsLocked p (expect-Keeps isr n s) w)
  run-IsLocked (read isr o null n ∷ rs) s w =
      run-IsLocked rs _ (Keeps-IsLocked p (read-Keeps isr o null n s) w)
  run-IsLocked (install isr ∷ rs) s w = run-IsLocked rs _ (apply-IsLocked isr s w)
  run-IsLocked (install_begin isr ∷ rs) s w = run-IsLocked rs _ (apply_begin-IsLocked isr s w)
  run-IsLocked (install_copy ∷ rs) s w = run-IsLocked rs _ (Keeps-IsLocked p (copy-Keeps p s) w)
  run-IsLocked (install_end rc ∷ rs) s w = run-IsLocked rs _ (apply_end-IsLocked rc s w)

  -- The event of the backend that has no payload.
  abbrev pub session_event : FuotaKind → Option BackendEvent
  session_event kind =
      some (BackendEvent.fuota (record { kind = kind; successful = false; image_size = 0 }))

  session_start-fields :
      (s : Fuota p)
      → ((session_start p s).state ≡ transferring)
        × ((session_start p s).image_ready ≡ s.image_ready)
        × ((session_start p s).started ≡ s.started)
  unfolding session_start notify_session_started
  session_start-fields s = ground (
    arith,
    set_state-fields p transferring (work p cancel_keepalive s),
    work-fields p cancel_keepalive s,
  )

  session_end-fields :
      (s : Fuota p)
      → s.state ≡ transferring
      → (session_end p s).state ≡ (if s.image_ready then transferring else ready)
  unfolding session_end
  session_end-fields s during =
      ground (arith, during, set_state-fields p ready (work p schedule_keepalive s))

  wanted :
      (b : Bool)
      → (p.auto_lock && wants_flash p (if b then transferring else ready)) ≡ (p.auto_lock && b)
  wanted true = refl
  wanted false = refl

  when_true : (b : Bool) (s t : Fuota p) → b ≡ true → (if not b then s else t) ≡ t
  when_true true s t e = refl
  when_true false s t e = cc

  on_event-handle :
      (e : BackendEvent) (s : Fuota p) → s.started ≡ true → on_event p (some e) s ≡ handle p e s
  unfolding on_event
  on_event-handle e s up = when_true s.started _ _ up

  -- A session that starts and ends without a transfer leads back to READY only when no image is
  -- ready. With an image from an earlier session the coordinator stays in TRANSFERRING, and so keeps
  -- the flash lock where the build has it.
  pub session-ends :
      (s : Fuota p)
      → IsLocked p s
      → s.started ≡ true
      → let t =
          on_event p
            (session_event FuotaKind.session_ended)
            (on_event p (session_event FuotaKind.session_started) s) in
        (t.state ≡ (if s.image_ready then transferring else ready))
        × (t.power_flash_held ≡ (p.auto_lock && s.image_ready))
  unfolding handle handle_fuota_event
  session-ends s w up =
      let during = session_start p s in
      let begun = session_start-fields s in
      let ended = end-IsLocked p during (session-IsLocked p s w) in
      let last : on_event p (session_event FuotaKind.session_ended)
            (on_event p (session_event FuotaKind.session_started) s)
          ≡ session_end p during =
        rw (on_event-handle _ s up) (on_event-handle _ during (begun.2 ∙ up)) in
      let state = session_end-fields during begun.0 in
      rw (last, ended.follows, state, begun.1) (refl, wanted s.image_ready)
