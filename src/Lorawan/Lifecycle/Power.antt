-- ===== src/Lorawan/Lifecycle/Power.antt =====
-- The class C power lock, and what a started service refuses.
use rzi.Prelude.{
  ℕ, ◌≤◌, ◌≡◌, ◌≢◌, ◌⊎◌, inl, inr, Bool, true, false, pos, if◌then◌else◌, is_zero, get_or, arith,
  Bool-cases,
}
use rzi.Err.{Err, fail}
use rzi.Power.{lock_lorawan}
use rzi.Power.Balance.{
  IsBalanced, lock_get-IsBalanced, lock_put-IsBalanced, lock-count_get, lock-count_put,
}
use rzi.Lorawan.{Host, Lorawan, DeviceClass}
use rzi.Lorawan.Events.{publish, publish_state}
use rzi.Lorawan.Lifecycle.{
  is_class_c, last_region, update_class_c_power, check_started, note_class, set_region,
  set_join_backoff_bypass, init, set_class,
}

abbrev pub count_of : Bool → ℕ
count_of true = 1
count_of false = 0

module _ (h : Host) where
  -- The service holds at most one reference of the LoRaWAN lock, and knows whether it does.
  pub record IsHeldOnce (s : Lorawan h) : Type 0 where
    pub balanced : IsBalanced s.power
    pub once : get_or s.power.lock_counts lock_lorawan 0 ≡ count_of s.power_class_c_held

  update-IsHeldOnce :
      (on : Bool) (s : Lorawan h) → IsHeldOnce s → IsHeldOnce (update_class_c_power h on s)
  unfolding update_class_c_power
  update-IsHeldOnce on s w = ground (
    arith,
    w.balanced,
    w.once,
    lock_get-IsBalanced false lock_lorawan s.power w.balanced,
    lock_put-IsBalanced false lock_lorawan s.power w.balanced,
    lock-count_get lock_lorawan s.power w.balanced,
    lock-count_put lock_lorawan s.power w.balanced,
  )

  note_class-IsHeldOnce :
      (c : DeviceClass) (s : Lorawan h) → IsHeldOnce s → IsHeldOnce (note_class h c s)
  unfolding note_class
  note_class-IsHeldOnce c s w =
      update-IsHeldOnce (is_class_c c) (record s { configured_class = c })
        (record { balanced = w.balanced; once = w.once })

  note_class-held :
      (c : DeviceClass) (s : Lorawan h)
      → IsHeldOnce s
      → h.auto_lock ≡ true
      → ((note_class h c s).configured_class ≡ c)
        × (get_or (note_class h c s).power.lock_counts lock_lorawan 0 ≡ count_of (is_class_c c))
  unfolding note_class update_class_c_power
  note_class-held c s w on = ground (
    arith,
    on,
    w.once,
    lock-count_get lock_lorawan s.power w.balanced,
    lock-count_put lock_lorawan s.power w.balanced,
  )

  set_class-shape :
      (isr : Bool) (c : DeviceClass) (s : Lorawan h)
      → let s' = record s { world = (h.set_class c s.world).1 } in
        ((set_class h isr c s).1 ≡ s)
        ⊎ ((set_class h isr c s).1
            ≡ (if is_zero (h.set_class c s.world).0 then note_class h c s' else s'))
  unfolding set_class
  set_class-shape isr c s = ground arith

  -- Setting the class keeps the LoRaWAN lock's count in step with the service's flag, on every path:
  -- 1 while the service holds the lock and 0 otherwise, as long as no one else uses that lock.
  pub set_class-IsHeldOnce :
      (isr : Bool) (c : DeviceClass) (s : Lorawan h)
      → IsHeldOnce s
      → IsHeldOnce (set_class h isr c s).1
  unfolding set_class
  set_class-IsHeldOnce isr c s w =
      let s' = record s { world = (h.set_class c s.world).1 } in
      let w' : IsHeldOnce s' = record { balanced = w.balanced; once = w.once } in
      elim (Bool-cases (is_zero (h.set_class c s.world).0)) [
        | inl accepted ↦ elim (set_class-shape isr c s) [
          | inl same ↦ rw same w
          | inr called ↦ rw (called, accepted) (note_class-IsHeldOnce c s' w')
        ]
        | inr refused ↦ elim (set_class-shape isr c s) [
          | inl same ↦ rw same w
          | inr called ↦ rw (called, refused) w'
        ]
      ]

  -- With the lock configured and used by no one else, a class that was set successfully is recorded
  -- and decides the lock: one reference in class C, none in the other classes.
  pub set_class-held :
      (c : DeviceClass) (s : Lorawan h)
      → IsHeldOnce s
      → h.auto_lock ≡ true
      → (set_class h false c s).0 ≡ pos 0
      → let t = (set_class h false c s).1 in
        (t.configured_class ≡ c)
        × (get_or t.power.lock_counts lock_lorawan 0 ≡ count_of (is_class_c c))
  unfolding set_class check_started
  set_class-held c s w on done =
      let s' = record s { world = (h.set_class c s.world).1 } in
      ground
        (arith, done, note_class-held c s' (record { balanced = w.balanced; once = w.once }) on)

  -- Once the service has started, the region and the join back-off are fixed: a thread's request to
  -- change either, or to start again, is refused and changes nothing.
  pub started-is_fixed :
      (region : ℕ) (enabled : Bool) (s : Lorawan h)
      → s.started ≡ true
      → region ≤ last_region
      → (set_region h false region s ≡ (fail Err.invalid_state, s))
        × (set_join_backoff_bypass h false enabled s ≡ (fail Err.invalid_state, s))
        × (init h false region s ≡ (fail Err.already, s))
  unfolding set_region set_join_backoff_bypass init
  started-is_fixed region enabled s up known = ground (arith, up, known)

  -- A first start by a thread in a known region leaves the service started exactly when it returns
  -- 0, and the region is then the one that was asked for.
  pub init-started :
      (region : ℕ) (s : Lorawan h)
      → s.started ≡ false
      → region ≤ last_region
      → let (rc, t) = init h false region s in
        (t.started ≡ is_zero rc) × ((rc ≢ pos 0) ⊎ (t.configured_region ≡ region))
  unfolding init publish_state publish
  init-started region s down known = ground (arith, down, known)
