-- ===== src/Lorawan/Events/Sequence.antt =====
-- The join sequence seen from the dispatcher: which failures subscribers see.
use rzi.Prelude.{ℕ, zero, suc, ◌≡◌, refl, true, false, ℤ, if◌then◌else◌, is_zero, arith}
use rzi.Err.{Err, fail}
use rzi.Lorawan.{join_failed, event_join_failed, Host, Lorawan}
use rzi.Lorawan.Events.{subscribers, deliver, deliver_to_services, dispatch}

module _ (h : Host) where
  -- The dispatch of `n` failed attempts in a row, with one error code.
  abbrev pub dispatch_failures : ℕ → ℤ → Lorawan h → Lorawan h
  dispatch_failures zero error s = s
  dispatch_failures (suc n) error s = dispatch_failures n error (dispatch h (join_failed error) s)

  dispatch_counted :
      (error : ℤ) (s : Lorawan h) (n : ℕ)
      → s.join_sequence_active ≡ true
      → s.join_retries_remaining ≡ suc n
      → dispatch h (join_failed error) s ≡ record s { join_retries_remaining = n }
  unfolding dispatch
  dispatch_counted error s n active e = ground (arith, active, e)

  -- In an active sequence with n retries left, n failures in a row are only counted: no subscriber
  -- and no service is called, nothing is published, and the sequence stays active.
  pub dispatch_failures-silent :
      (error : ℤ) (n : ℕ) (s : Lorawan h)
      → s.join_sequence_active ≡ true
      → s.join_retries_remaining ≡ n
      → dispatch_failures n error s ≡ record s { join_retries_remaining = 0 }
  dispatch_failures-silent error zero s active e = ground (arith, e)
  dispatch_failures-silent error (suc n) s active e =
      rw (dispatch_counted error s n active e)
        (dispatch_failures-silent error n (record s { join_retries_remaining = n }) active refl)

  failures_commute :
      (error : ℤ) (n : ℕ) (s : Lorawan h)
      → dispatch_failures n error (dispatch h (join_failed error) s)
        ≡ dispatch h (join_failed error) (dispatch_failures n error s)
  failures_commute error zero s = refl
  failures_commute error (suc n) s = failures_commute error n (dispatch h (join_failed error) s)

  -- The failure after the last retry ends the sequence: every subscriber and then every service gets
  -- it, with TIMEOUT in place of an error code 0, and the sequence is not active any more.
  pub dispatch_failures-last :
      (error : ℤ) (n : ℕ) (s : Lorawan h)
      → s.join_sequence_active ≡ true
      → s.join_retries_remaining ≡ n
      → let t = dispatch_failures (suc n) error s in
        (t.join_sequence_active ≡ false)
        × (t.join_retries_remaining ≡ 0)
        × (t.calls
            ≡ deliver_to_services h (join_failed error) s.services (
                deliver h
                  (event_join_failed (if is_zero error then fail Err.timeout else error))
                  (subscribers h s.callback_slots)
                  s.calls))
  unfolding dispatch
  dispatch_failures-last error n s active e =
      rw (failures_commute error n s, dispatch_failures-silent error n s active e)
        (ground (arith, active))
