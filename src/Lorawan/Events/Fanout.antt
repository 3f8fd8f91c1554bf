-- ===== src/Lorawan/Events/Fanout.antt =====
-- What the dispatcher remembers and reports.
use rzi.Prelude.{
  ◌≡◌, refl, false, List, [], ◌∷◌, ℤ, pos, Option, none, some, if◌then◌else◌, arith, Bool-cases,
  inl, inr,
}
use rzi.Err.{Err, fail}
use rzi.Lorawan.{
  BackendEvent, join_failed, downlink, backend_error, Downlink, event_error, Host, Lorawan,
}
use rzi.Lorawan.Events.{subscribers, deliver, deliver_to_services, dispatch, dispatcher_round}
use rzi.Lorawan.Uplink.{get_last_rssi, get_last_snr}

-- The radio values of the latest downlink of a list of events, if it has one.
abbrev pub last_downlink : List BackendEvent → Option Downlink
last_downlink [] = none
last_downlink (e ∷ es) = elim (last_downlink es) [
  | some d ↦ some d
  | none ↦ elim e [ downlink d ↦ some d | _ ↦ none ]
]

module _ (h : Host) where
  pub dispatch_list : List BackendEvent → Lorawan h → Lorawan h
  dispatch_list [] s = s
  dispatch_list (e ∷ es) s = dispatch_list es (dispatch h e s)

  -- What the two queries give to a thread.
  abbrev pub radio : Lorawan h → (ℤ × Option ℤ) × (ℤ × Option ℤ)
  radio s = (get_last_rssi h false false s, get_last_snr h false false s)

  pub radio_or : Option Downlink → (ℤ × Option ℤ) × (ℤ × Option ℤ) → (ℤ × Option ℤ) × (ℤ × Option ℤ)
  radio_or none r = r
  radio_or (some d) r = ((pos 0, some d.rssi_dbm), (pos 0, some d.snr_quarter_db))

  radio-dispatch :
      (e : BackendEvent) (s : Lorawan h)
      → radio (dispatch h e s) ≡ radio_or (elim e [ downlink d ↦ some d | _ ↦ none ]) (radio s)
  unfolding dispatch get_last_rssi get_last_snr radio_or
  radio-dispatch (join_failed error) s = ground arith
  radio-dispatch _ s = ground arith

  -- After any events have been dispatched, the queries for the signal of the last downlink give the
  -- values of the latest downlink among them, and what they gave before if there was none; no other
  -- event disturbs them.
  pub radio-dispatch_list :
      (es : List BackendEvent) (s : Lorawan h)
      → radio (dispatch_list es s) ≡ radio_or (last_downlink es) (radio s)
  unfolding dispatch_list radio_or
  radio-dispatch_list [] s = refl
  radio-dispatch_list (e ∷ es) s =
      ground (arith, radio-dispatch_list es (dispatch h e s), radio-dispatch e s)

  -- A round that takes an event from the queue leaves no overflow unreported: the flag is clear
  -- behind it, and if publishing failed before the round or during the event's own dispatch, every
  -- subscriber and service is called with an OVERFLOW error after that dispatch.
  pub dispatcher_round-overflow :
      (e : BackendEvent) (s : Lorawan h) (w : h.World)
      → h.msgq_get s.world ≡ some (e, w)
      → let t = dispatch h e (record s { world = w }) in
        ((dispatcher_round h s).overflow ≡ false)
        × ((dispatcher_round h s).calls ≡ (
            if t.overflow
            then deliver_to_services h (backend_error (fail Err.overflow)) t.services (
                deliver h
                  (event_error (fail Err.overflow))
                  (subscribers h t.callback_slots)
                  t.calls)
            else t.calls))
  unfolding dispatcher_round
  dispatcher_round-overflow e s w got =
      let t = dispatch h e (record s { world = w }) in
      rw (got, dispatcher_round)
        (elim (Bool-cases t.overflow) [
          | inl lost ↦ rw lost (refl, refl)
          | inr kept ↦ rw kept (kept, refl)
        ])
