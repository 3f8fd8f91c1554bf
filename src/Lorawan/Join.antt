-- ===== src/Lorawan/Join.antt =====
-- lorawan.c: the join sequence, from `begin_join` to `rzi_lorawan_leave`.
pub mod Attempts
use Prim.Native.Nat.{bit_and}
use rzi.Prelude.{
  ℕ, suc, ◌^◌, Bool, true, false, not, ◌&&◌, ◌||◌, ℤ, pos, negsuc, ◌==◌, ◌==ℤ◌, if◌then◌else◌,
  is_zero,
}
use rzi.Err.{Err, fail}
use rzi.Lorawan.{ready, joining, Activation, otaa, abp, Host, Lorawan}
use rzi.Lorawan.Events.{publish_state, clear_join_sequence}
use rzi.Lorawan.Lifecycle.{check_thread, check_started, update_class_c_power}

-- RZI_LORAWAN_JOIN_KEEP.
abbrev pub join_keep : ℤ
join_keep = negsuc 0

-- RZI_LORAWAN_CAP_OTAA and RZI_LORAWAN_CAP_ABP.
abbrev pub activation_cap : Activation → ℕ
activation_cap otaa = 2 ^ 0
activation_cap abp = 2 ^ 1

module _ (h : Host) where
  -- The part of `begin_join` that takes the sequence and asks the backend.
  unfoldable pub start_sequence : ℕ → h.JoinConfig → Lorawan h → ℤ × Lorawan h
  start_sequence attempts config s =
      if s.join_sequence_active
      then (fail Err.busy, s)
      else let s' = publish_state h joining (record s {
        join_sequence_active = true;
        join_retries_remaining = attempts;
        world = h.set_join_active true s.world;
      }) in
        let (rc, w) = h.join config s'.world in
        let s'' = record s' { world = w } in
        (rc, if is_zero rc then s'' else publish_state h ready (clear_join_sequence h s''))

  unfoldable pub begin_join : Lorawan h → ℤ × Lorawan h
  unfolding start_sequence
  begin_join s =
      let (rc, mode, w) = h.get_activation s.world in
      let (rc', attempts, w') = h.get_join_attempts w in
      let (rc'', config, w'') = h.build_config w' in
      if not (is_zero rc)
      then (rc, record s { world = w })
      else if bit_and h.capabilities (activation_cap mode) == 0
      then (fail Err.not_supported, record s { world = w })
      else if not (is_zero rc')
      then (rc', record s { world = w' })
      else if not (is_zero rc'')
      then (rc'', record s { world = w'' })
      else start_sequence attempts config (record s { world = w'' })

  -- The end of `stop_join`, for a sequence that was active in a started service.
  unfoldable pub abort_join : Lorawan h → ℤ × Lorawan h
  abort_join s =
      let (rc, joined, w) = h.is_joined s.world in
      let (rc', w') = h.leave w in
      if not (is_zero rc)
      then (rc, record s { world = w })
      else if joined
      then (pos 0, record s { world = w })
      else if is_zero rc' || (rc' ==ℤ fail Err.not_supported)
      then (pos 0, publish_state h ready (record s { world = w' }))
      else (rc', record s { world = w' })

  unfoldable pub stop_join : Bool → Lorawan h → ℤ × Lorawan h
  unfolding abort_join
  stop_join isr s =
      let s' = clear_join_sequence h s in
      if not s.join_sequence_active || not (is_zero (check_started h isr s'))
      then (pos 0, s')
      else abort_join s'

  -- `rzi_lorawan_join`.
  unfoldable pub join : Bool → ℤ → ℤ → ℤ → ℤ → Lorawan h → ℤ × Lorawan h
  unfolding stop_join begin_join
  join isr start auto_join interval attempts s =
      let (rc, w) = h.update_policy auto_join interval attempts s.world in
      let s' = record s { world = w } in
      if isr
      then (fail Err.isr, s)
      else if not (start ==ℤ join_keep) && (not (start ==ℤ pos 0) && not (start ==ℤ pos 1))
      then (fail Err.invalid, s)
      else if (start ==ℤ pos 1) && s.join_sequence_active
      then (fail Err.busy, s)
      else if not (is_zero rc)
      then (rc, s')
      else if start ==ℤ pos 0
      then stop_join isr s'
      else if not (start ==ℤ pos 1)
      then (pos 0, s')
      else if not (is_zero (check_started h isr s'))
      then (check_started h isr s', s')
      else begin_join s'

  unfoldable pub leave : Bool → Lorawan h → ℤ × Lorawan h
  leave isr s =
      let rc = check_started h isr s in
      let (rc', w) = h.leave s.world in
      let s' = record s { world = w } in
      if not (is_zero rc) then (rc, s) else (
        rc',
        if is_zero rc' then publish_state h ready (update_class_c_power h false s') else s',
      )
