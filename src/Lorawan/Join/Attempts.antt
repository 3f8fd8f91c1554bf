-- ===== src/Lorawan/Join/Attempts.antt =====
-- When a join sequence is active, and what a later call of `rzi_lorawan_join` returns.
use rzi.Prelude.{ℕ, ◌≡◌, ◌≢◌, ◌⊎◌, true, false, ℤ, pos, if◌then◌else◌, is_zero, arith}
use rzi.Err.{Err, fail}
use rzi.Lorawan.{Host, Lorawan}
use rzi.Lorawan.Events.{publish, publish_state, clear_join_sequence}
use rzi.Lorawan.Lifecycle.{check_started, update_class_c_power}
use rzi.Lorawan.Join.{start_sequence, begin_join, abort_join, stop_join, join, leave}

module _ (h : Host) where
  start_sequence-active :
      (attempts : ℕ) (config : h.JoinConfig) (s : Lorawan h)
      → s.join_sequence_active ≡ false
      → let (rc, t) = start_sequence h attempts config s in
        (t.join_sequence_active ≡ is_zero rc)
        × (t.join_retries_remaining ≡ (if is_zero rc then attempts else 0))
  unfolding start_sequence publish_state publish clear_join_sequence
  start_sequence-active attempts config s idle = ground (arith, idle)

  begin_join-active :
      (s : Lorawan h)
      → s.join_sequence_active ≡ false
      → let (rc, t) = begin_join h s in
        (t.join_sequence_active ≡ is_zero rc)
        × ((rc ≢ pos 0)
            ⊎ (t.join_retries_remaining ≡ (h.get_join_attempts (h.get_activation s.world).2).1))
  unfolding begin_join
  begin_join-active s idle =
      let (_, _, w) = h.get_activation s.world in
      let (_, attempts, w') = h.get_join_attempts w in
      let (_, config, w'') = h.build_config w' in
      ground (arith, idle, start_sequence-active attempts config (record s { world = w'' }))

  -- A request to start that finds no active sequence makes one active exactly when it returns 0, and
  -- then with as many retries as the stored policy has behind the update that the call makes.
  pub join-starts :
      (auto_join interval attempts : ℤ) (s : Lorawan h)
      → s.join_sequence_active ≡ false
      → let (rc, t) = join h false (pos 1) auto_join interval attempts s in
        let w = (h.update_policy auto_join interval attempts s.world).1 in
        (t.join_sequence_active ≡ is_zero rc)
        × ((rc ≢ pos 0)
            ⊎ (t.join_retries_remaining ≡ (h.get_join_attempts (h.get_activation w).2).1))
  unfolding join check_started
  join-starts auto_join interval attempts s idle =
      let w = (h.update_policy auto_join interval attempts s.world).1 in
      ground (arith, idle, begin_join-active (record s { world = w }) idle)

  -- While a sequence is active a second start is refused as BUSY and changes nothing, before the
  -- policy is touched.
  pub join-busy :
      (auto_join interval attempts : ℤ) (s : Lorawan h)
      → s.join_sequence_active ≡ true
      → join h false (pos 1) auto_join interval attempts s ≡ (fail Err.busy, s)
  unfolding join
  join-busy auto_join interval attempts s active = ground (arith, active)

  -- A stop from a thread whose policy update succeeds leaves no sequence active, whatever the backend
  -- answers, and with no sequence active before it returns 0 without asking the backend.
  pub join-stops :
      (auto_join interval attempts : ℤ) (s : Lorawan h)
      → (h.update_policy auto_join interval attempts s.world).0 ≡ pos 0
      → let (rc, t) = join h false (pos 0) auto_join interval attempts s in
        (t.join_sequence_active ≡ false)
        × (t.join_retries_remaining ≡ 0)
        × ((s.join_sequence_active ≡ true) ⊎ (rc ≡ pos 0))
  unfolding join stop_join abort_join publish_state publish clear_join_sequence
  join-stops auto_join interval attempts s accepted = ground (arith, accepted)

  -- A call of `rzi_lorawan_leave` during a sequence does not end it, even when the backend has
  -- accepted to leave: the next start is refused as BUSY.
  pub join-leave-busy :
      (auto_join interval attempts : ℤ) (s : Lorawan h)
      → s.join_sequence_active ≡ true
      → s.started ≡ true
      → (h.leave s.world).0 ≡ pos 0
      → let (rc, t) = leave h false s in
        (rc ≡ pos 0) × (join h false (pos 1) auto_join interval attempts t ≡ (fail Err.busy, t))
  unfolding leave join publish_state publish check_started update_class_c_power
  join-leave-busy auto_join interval attempts s active up left = ground (arith, active, up, left)
