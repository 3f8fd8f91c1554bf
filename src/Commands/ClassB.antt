-- ===== src/Commands/ClassB.antt =====
-- src/at/commands/lorawan/at_lorawan_class_b.c and at_lorawan_certification.c: the AT commands for
-- Class B and the certification mode, over the functions of Network/Groups and Network/Mac. Decimal
-- text, "%u" and "%03u", is a parameter, and so is what `rzi_at_lorawan_parse_long` makes of the
-- argument.
use rzi.Prelude.{
  ℕ, Bool, true, ◌||◌, List, ◌++◌, ℤ, pos, negsuc, Option, none, some, codes, ltb_ℤ, ◌-◌, ◌/◌, ◌%◌,
  if◌then◌else◌, is_zero,
}
use rzi.Err.{Err, fail}
use rzi.Network.Groups.{
  GroupOps, get_ping_slot_periodicity, set_ping_slot_periodicity, get_beacon_frequency,
  get_beacon_time, get_beacon_data_rate, get_certification_mode, set_certification_mode,
}
use rzi.Network.Mac.{MacOps, Mac, get_network_time}
use rzi.Commands.{parse_bool}
use rzi.Commands.Keys.{Reply, value, status_ok, failed, equation}

-- The end of a handler that only reports a code.
abbrev pub status_of : ℤ → Reply
status_of rc = if is_zero rc then status_ok else failed rc

-- The end of a handler that prints what it got.
abbrev pub value_of : ℤ → List ℕ → Reply
value_of rc text = if is_zero rc then value text else failed rc

-- The magnitude of a number that the range check has let through.
abbrev pub as_uint8 : ℤ → ℕ
as_uint8 (pos n) = n % 256
as_uint8 (negsuc n) = 255 - n % 256

module _ (decimal padded : ℕ → List ℕ) (g : GroupOps) (rc : ℤ) where
  -- The write of `handle_pgslot`; `parsed` is `none` if the argument is no number.
  unfoldable pub write_pgslot : Option ℤ → g.W → Reply × g.W
  write_pgslot none w = (failed (fail Err.invalid), w)
  write_pgslot (some periodicity) w =
      if ltb_ℤ periodicity (pos 0) || ltb_ℤ (pos 7) periodicity
      then (failed (fail Err.invalid), w)
      else let (code, w') = set_ping_slot_periodicity g rc (as_uint8 periodicity) w in
        (status_of code, w')

  unfoldable pub handle_pgslot : Bool → Option ℤ → g.W → Reply × g.W
  handle_pgslot is_read parsed w =
      let (code, periodicity, w') = get_ping_slot_periodicity g rc true w in
      if is_read
      then (value_of code (equation (codes "AT+PGSLOT") (decimal periodicity)), w')
      else write_pgslot parsed w

  -- "BCON: %u, %u.%03u", with the frequency in MHz.
  abbrev pub beacon_text : ℕ → ℕ → List ℕ
  beacon_text data_rate frequency_hz =
      codes "BCON: "
      ++ (decimal data_rate
          ++ (codes ", "
              ++ (decimal (frequency_hz / 1000000)
                  ++ (codes "." ++ padded ((frequency_hz / 1000) % 1000)))))

  -- The frequency is asked for only when there is a data rate.
  unfoldable pub handle_bfreq : g.W → Reply × g.W
  handle_bfreq w =
      let (code, data_rate, w') = get_beacon_data_rate g rc true w in
      let (code', frequency_hz, w'') = get_beacon_frequency g rc true w' in
      if is_zero code
      then (value_of code' (beacon_text data_rate frequency_hz), w'')
      else (failed code, w')

  unfoldable pub handle_btime : g.W → Reply × g.W
  handle_btime w =
      let (code, gps_time, w') = get_beacon_time g rc true w in
      (value_of code (codes "BTIME: " ++ decimal gps_time), w')

  unfoldable pub handle_ltime : (m : MacOps) → Mac m → Reply × Mac m
  handle_ltime m s =
      let (code, gps_seconds, s') = get_network_time m rc true s in
      (value_of code (codes "LTIME: GPS " ++ decimal gps_seconds), s')

  abbrev pub flag_text : Bool → List ℕ
  flag_text enabled = if enabled then codes "1" else codes "0"

  abbrev pub write_certif : Option Bool → g.W → Reply × g.W
  write_certif none w = (failed (fail Err.invalid), w)
  write_certif (some enabled) w =
      let (code, w') = set_certification_mode g rc enabled w in (status_of code, w')

  unfoldable pub handle_certif : Bool → List ℕ → g.W → Reply × g.W
  handle_certif is_read argument w =
      let (code, enabled, w') = get_certification_mode g rc true w in
      if is_read
      then (value_of code (equation (codes "AT+CERTIF") (flag_text enabled)), w')
      else write_certif (parse_bool argument) w
