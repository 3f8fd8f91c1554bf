-- ===== src/Network/Gate.antt =====
-- What reaches the backend through the network parameters and the MAC requests.
use rzi.Prelude.{
  ℕ, ◌≡◌, ◌⊎◌, inl, inr, refl, ap, ◌∙◌, Bool, true, false, not, ◌&&◌, ◌||◌, List, ℤ, pos, Option,
  none, some, ltb, leb, ◌==◌, if◌then◌else◌, is_zero, is_null, Bool-cases, arith,
}
use rzi.Err.{Err, fail}
use rzi.Network.{
  NetworkOps, take_op, set_adr, set_public_network, set_lbt, set_lbt_rssi, set_csma,
  set_no_downlink_threshold, set_crystal_error, query_tx_possible,
}
use rzi.Network.Limits.{
  distribution_valid, adr_custom, check_uplink_data_rate, send_data_rate, bytes_or, set_data_rate,
  set_lbt_scan_time, set_adr_profile, set_nb_trans, set_adr_ack, set_join_data_rates,
  set_csma_params,
}
use rzi.Network.Mac.{
  MacOps, Mac, request_link_check, on_uplink, link_check_disabled, link_check_every_uplink,
}

-- The calls that change a network parameter.
pub data Request : Type 0 where
  adr public_network lbt csma : Bool → Request
  lbt_rssi : ℤ → Request
  data_rate lbt_scan_time nb_trans no_downlink_threshold crystal_error tx_possible : ℕ → Request
  adr_profile : ℕ → Option (List ℕ) → Request
  adr_ack : ℕ → ℕ → Request
  join_data_rates csma_params : Option (List ℕ) → Request

-- What the API itself checks of the argument: the limits of include/rzi/lorawan/lorawan.h that depend
-- on nothing else. Which data rates are legal in a region, and the ranges of the CSMA parameters, are
-- left to the backend; of the latter only NULL is refused here.
unfoldable pub in_range : Request → Bool
in_range (data_rate n) = leb n 15
in_range (lbt_scan_time n) = leb 1 n
in_range (nb_trans n) = leb 1 n && leb n 15
in_range (adr_profile n d) = leb n 3 && (not (n == 3) || distribution_valid d)
in_range (adr_ack limit delay) = (leb 2 limit && leb limit 127) && (leb 2 delay && leb delay 127)
in_range (join_data_rates d) = distribution_valid d
in_range (csma_params p) = not (is_null p)
in_range _ = true

module _ (n : NetworkOps) where
  unfoldable pub perform : ℤ → Request → n.W → ℤ × n.W
  perform rc (adr b) w = set_adr n rc b w
  perform rc (public_network b) w = set_public_network n rc b w
  perform rc (lbt b) w = set_lbt n rc b w
  perform rc (csma b) w = set_csma n rc b w
  perform rc (lbt_rssi z) w = set_lbt_rssi n rc z w
  perform rc (data_rate d) w = set_data_rate n rc d w
  perform rc (lbt_scan_time t) w = set_lbt_scan_time n rc t w
  perform rc (nb_trans t) w = set_nb_trans n rc t w
  perform rc (no_downlink_threshold t) w = set_no_downlink_threshold n rc t w
  perform rc (crystal_error t) w = set_crystal_error n rc t w
  perform rc (tx_possible size) w = query_tx_possible n rc size w
  perform rc (adr_profile p d) w = set_adr_profile n rc p d w
  perform rc (adr_ack limit delay) w = set_adr_ack n rc limit delay w
  perform rc (join_data_rates d) w = set_join_data_rates n rc d w
  perform rc (csma_params p) w = set_csma_params n rc p w

  -- Refused, and the backend is not called.
  Refused : n.W → ℤ × n.W → Type 0
  Refused w (rc, w') = (is_zero rc ≡ false) × (w' ≡ w)

  failed-Refused : (rc : ℤ) (w : n.W) → is_zero rc ≡ false → Refused w (rc, w)
  unfolding Refused
  failed-Refused rc w e = (e, refl)

  take_op-Refused :
      {A : Type 0} (rc : ℤ) (op : Option (A → n.W → ℤ × n.W)) (v : A) (w : n.W)
      → is_zero rc ≡ false
      → Refused w (take_op rc op v w)
  take_op-Refused rc none v w e = rw e (failed-Refused rc w e)
  take_op-Refused rc (some op) v w e = rw e (failed-Refused rc w e)

  guarded-Refused :
      (b : Bool) (rc : ℤ) (w : n.W) (p : ℤ × n.W)
      → is_zero rc ≡ false
      → (b ≡ false → Refused w p)
      → Refused w (if b then (rc, w) else p)
  guarded-Refused true rc w p e f = failed-Refused rc w e
  guarded-Refused false rc w p e f = f refl

  send_data_rate-Refused :
      (rc : ℤ) (op : Option (ℕ → n.W → ℤ × n.W)) (d : ℕ) (w : n.W)
      → leb d 15 ≡ false
      → Refused w (send_data_rate n rc op d w)
  unfolding send_data_rate check_uplink_data_rate
  send_data_rate-Refused rc none d w e = failed-Refused _ w refl
  send_data_rate-Refused rc (some op) d w e =
      let high : ltb 15 d ≡ true = ground (arith, e) in rw high (failed-Refused _ w refl)

  data_rate-Refused :
      (rc : ℤ) (d : ℕ) (w : n.W)
      → (is_zero rc && leb d 15) ≡ false
      → Refused w (set_data_rate n rc d w)
  unfolding set_data_rate
  data_rate-Refused rc d w e = elim (Bool-cases (is_zero rc)) [
    | inl z ↦ rw z (send_data_rate-Refused rc n.set_data_rate_op d w (ground (arith, e, z)))
    | inr z ↦ rw z (failed-Refused rc w z)
  ]

  perform-Refused :
      (rc : ℤ) (r : Request) (w : n.W)
      → (is_zero rc && in_range r) ≡ false
      → Refused w (perform rc r w)
  unfolding perform in_range set_lbt_scan_time set_nb_trans set_adr_profile set_adr_ack
      set_join_data_rates set_csma_params
  perform-Refused rc (adr b) w e = take_op-Refused rc n.set_adr_op b w (ground (arith, e))
  perform-Refused rc (public_network b) w e =
      take_op-Refused rc n.set_public_network_op b w (ground (arith, e))
  perform-Refused rc (lbt b) w e = take_op-Refused rc n.set_lbt_op b w (ground (arith, e))
  perform-Refused rc (csma b) w e = take_op-Refused rc n.set_csma_op b w (ground (arith, e))
  perform-Refused rc (lbt_rssi z) w e = take_op-Refused rc n.set_lbt_rssi_op z w (ground (arith, e))
  perform-Refused rc (data_rate d) w e = data_rate-Refused rc d w e
  perform-Refused rc (lbt_scan_time t) w e =
      guarded-Refused (t == 0) (fail Err.invalid) w _ refl
        (λ z. take_op-Refused rc n.set_lbt_scan_time_op t w (ground (arith, e, z)))
  perform-Refused rc (nb_trans t) w e =
      guarded-Refused ((t == 0) || ltb 15 t) (fail Err.invalid) w _ refl
        (λ z. take_op-Refused rc n.set_nb_trans_op t w (ground (arith, e, z)))
  perform-Refused rc (no_downlink_threshold t) w e =
      take_op-Refused rc n.set_no_downlink_threshold_op t w (ground (arith, e))
  perform-Refused rc (crystal_error t) w e =
      take_op-Refused rc n.set_crystal_error_op t w (ground (arith, e))
  perform-Refused rc (tx_possible size) w e =
      take_op-Refused rc n.query_tx_possible_op size w (ground (arith, e))
  perform-Refused rc (adr_profile p d) w e =
      guarded-Refused (ltb adr_custom p || ((p == adr_custom) && not (distribution_valid d)))
        (fail Err.invalid) w _ refl
        (λ z. take_op-Refused rc n.set_adr_profile_op (p, bytes_or d) w (ground (arith, e, z)))
  perform-Refused rc (adr_ack limit delay) w e =
      guarded-Refused ((ltb limit 2 || ltb 127 limit) || (ltb delay 2 || ltb 127 delay))
        (fail Err.invalid) w _ refl
        (λ z. take_op-Refused rc n.set_adr_ack_op (limit, delay) w (ground (arith, e, z)))
  perform-Refused rc (join_data_rates d) w e =
      guarded-Refused (not (distribution_valid d)) (fail Err.invalid) w _ refl
        (λ z. take_op-Refused rc n.set_join_data_rates_op (bytes_or d) w (ground (arith, e, z)))
  perform-Refused rc (csma_params none) w e = failed-Refused _ w refl
  perform-Refused rc (csma_params (some p)) w e =
      take_op-Refused rc n.set_csma_params_op p w (ground (arith, e))

  -- When the service is not started (`rc` is not 0), or the argument is one that the API itself
  -- refuses (a data rate above 15, an LBT scan time of 0, a number of transmissions outside of 1 to
  -- 15, an ADR profile above 3 or a custom one without a distribution of data rates up to 15, an ADR
  -- limit or delay outside of 2 to 127, such a distribution for joins, CSMA parameters that are
  -- NULL), then a change of a network parameter gives an error, and the backend is not called.
  pub perform-refused :
      (rc : ℤ) (r : Request) (w : n.W)
      → (is_zero rc && in_range r) ≡ false
      → (is_zero (perform rc r w).0 ≡ false) × ((perform rc r w).1 ≡ w)
  unfolding Refused
  perform-refused rc r w e = perform-Refused rc r w e

module _ (m : MacOps) where
  on_uplink-idle :
      (t : Mac m)
      → (t.link_check_mode == link_check_every_uplink) ≡ false
      → t.device_time_enabled ≡ false
      → on_uplink m t ≡ t
  unfolding on_uplink
  on_uplink-idle t e off =
      rw e (ap (λ w. record t { world = w }) (skip t.device_time_enabled _ t.world off))
    where
      skip : (b : Bool) (v w : m.W) → b ≡ false → (if b then v else w) ≡ w
      skip b v w off = rw off refl

  requested :
      (rc : ℤ) (mode : ℕ) (s : Mac m)
      → (request_link_check m rc mode s).0 ≡ pos 0
      → let t = (request_link_check m rc mode s).1 in
        (is_zero rc ≡ true)
        × (leb mode link_check_every_uplink ≡ true)
        × (t.link_check_mode
            ≡ (if mode == link_check_every_uplink then mode else link_check_disabled))
        × (t.device_time_enabled ≡ s.device_time_enabled)
  unfolding request_link_check
  requested rc mode s ok =
      (ground (arith, ok), ground (arith, ok), ground (arith, ok), ground (arith, ok))

  -- When a link check is requested with success, the service is started and the mode is in range; a
  -- request for one check leaves the checks disabled. With the device time off, an uplink after that
  -- calls the backend only in the mode of a check with every uplink.
  pub request_link_check-on_uplink :
      (rc : ℤ) (mode : ℕ) (s : Mac m)
      → (request_link_check m rc mode s).0 ≡ pos 0
      → let t = (request_link_check m rc mode s).1 in
        (is_zero rc ≡ true)
        × (leb mode link_check_every_uplink ≡ true)
        × (t.link_check_mode
            ≡ (if mode == link_check_every_uplink then mode else link_check_disabled))
        × ((((mode == link_check_every_uplink) || s.device_time_enabled) ≡ true)
            ⊎ (on_uplink m t ≡ t))
  request_link_check-on_uplink rc mode s ok =
      let t = (request_link_check m rc mode s).1 in
      let (started, low, set_mode, same) = requested rc mode s ok in
      (
        started,
        low,
        set_mode,
        elim (Bool-cases ((mode == link_check_every_uplink) || s.device_time_enabled)) [
          | inl on ↦ inl on
          | inr off ↦
              inr (on_uplink-idle t (ground (arith, set_mode, off)) (same ∙ ground (arith, off)))
        ],
      )
