-- ===== src/Network/Limits.antt =====
-- src/lorawan/api/lorawan_network.c: the setters that check their argument.
use rzi.Prelude.{
  ℕ, ◌/◌, ◌%◌, ◌^◌, Bool, true, false, not, ◌&&◌, ◌||◌, List, [], ◌∷◌, ℤ, pos, Option, none, some,
  ltb, leb, ◌==◌, if◌then◌else◌, is_zero,
}
use rzi.Err.{Err, fail}
use rzi.Network.{NetworkOps, take_op, Reads, Takes}

-- RZI_LORAWAN_DR_15 and RZI_LORAWAN_ADR_CUSTOM.
abbrev pub last_data_rate : ℕ
last_data_rate = 15

abbrev pub adr_custom : ℕ
adr_custom = 3

-- `distribution_valid`; NULL is `none`.
abbrev pub all_low : List ℕ → Bool
all_low [] = true
all_low (d ∷ ds) = leb d 15 && all_low ds

abbrev pub distribution_valid : Option (List ℕ) → Bool
distribution_valid none = false
distribution_valid (some ds) = all_low ds

abbrev pub bytes_or : Option (List ℕ) → List ℕ
bytes_or none = []
bytes_or (some ds) = ds

-- `mask & (1U << data_rate)`.
abbrev pub rate_enabled : ℕ → ℕ → Bool
rate_enabled mask data_rate = mask / 2 ^ data_rate % 2 == 1

module _ (n : NetworkOps) (rc : ℤ) where
  -- The end of `check_uplink_data_rate`, by the operation that reads the mask.
  unfoldable pub check_enabled : Reads n.W ℕ → ℕ → n.W → ℤ × n.W
  check_enabled none data_rate w = (pos 0, w)
  check_enabled (some op) data_rate w =
      let (got, mask, w') = op w in
      (
        if not (is_zero got)
            then got
            else if rate_enabled mask data_rate
            then pos 0
            else fail Err.invalid,
        w',
      )

  unfoldable pub check_uplink_data_rate : ℕ → n.W → ℤ × n.W
  check_uplink_data_rate data_rate w =
      if ltb last_data_rate data_rate
      then (fail Err.invalid, w)
      else check_enabled n.get_enabled_data_rates data_rate w

  -- The end of `rzi_lorawan_set_data_rate`, by its operation.
  unfoldable pub send_data_rate : Takes n.W ℕ → ℕ → n.W → ℤ × n.W
  send_data_rate none data_rate w = (fail Err.not_supported, w)
  send_data_rate (some op) data_rate w =
      let (checked, w') = check_uplink_data_rate data_rate w in
      if is_zero checked then op data_rate w' else (checked, w')

  unfoldable pub set_data_rate : ℕ → n.W → ℤ × n.W
  set_data_rate data_rate w =
      if not (is_zero rc) then (rc, w) else send_data_rate n.set_data_rate_op data_rate w

  unfoldable pub set_lbt_scan_time : ℕ → n.W → ℤ × n.W
  set_lbt_scan_time time_ms w =
      if time_ms == 0 then (fail Err.invalid, w) else take_op rc n.set_lbt_scan_time_op time_ms w

  unfoldable pub set_adr_profile : ℕ → Option (List ℕ) → n.W → ℤ × n.W
  set_adr_profile profile distribution w =
      if ltb adr_custom profile
        || ((profile == adr_custom) && not (distribution_valid distribution))
      then (fail Err.invalid, w)
      else take_op rc n.set_adr_profile_op (profile, bytes_or distribution) w

  unfoldable pub set_nb_trans : ℕ → n.W → ℤ × n.W
  set_nb_trans nb_trans w =
      if (nb_trans == 0) || ltb 15 nb_trans
      then (fail Err.invalid, w)
      else take_op rc n.set_nb_trans_op nb_trans w

  unfoldable pub set_adr_ack : ℕ → ℕ → n.W → ℤ × n.W
  set_adr_ack limit delay w =
      if (ltb limit 2 || ltb 127 limit) || (ltb delay 2 || ltb 127 delay)
      then (fail Err.invalid, w)
      else take_op rc n.set_adr_ack_op (limit, delay) w

  unfoldable pub set_join_data_rates : Option (List ℕ) → n.W → ℤ × n.W
  set_join_data_rates distribution w =
      if not (distribution_valid distribution)
      then (fail Err.invalid, w)
      else take_op rc n.set_join_data_rates_op (bytes_or distribution) w

  unfoldable pub set_csma_params : Option (List ℕ) → n.W → ℤ × n.W
  set_csma_params none w = (fail Err.invalid, w)
  set_csma_params (some params) w = take_op rc n.set_csma_params_op params w
