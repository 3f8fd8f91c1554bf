-- ===== src/Lorawan/Uplink.antt =====
-- lorawan.c: uplinks and queries.
pub mod Guards
use rzi.Prelude.{
  ℕ, Bool, true, false, not, ◌&&◌, ◌||◌, List, [], ℤ, pos, Option, none, some, length, ltb, leb,
  ◌==◌, if◌then◌else◌, is_zero, is_null,
}
use rzi.Err.{Err, fail}
use rzi.Lorawan.{Host, Lorawan}
use rzi.Lorawan.Lifecycle.{check_thread, check_started}

-- RZI_LORAWAN_MAX_PAYLOAD.
abbrev pub max_payload : ℕ
max_payload = 242

-- The message types are 0 and 1.
abbrev pub message_type_valid : ℕ → Bool
message_type_valid type = (type == 0) || (type == 1)

abbrev pub bad_port : ℕ → Bool
bad_port port = (port == 0) || ltb 223 port

abbrev pub bytes_of : Option (List ℕ) → List ℕ
bytes_of none = []
bytes_of (some b) = b

module _ (h : Host) where
  unfoldable pub check_joined : Bool → Lorawan h → ℤ × Lorawan h
  check_joined isr s =
      let rc = check_started h isr s in
      let (rc', joined, w) = h.is_joined s.world in
      let s' = record s { world = w } in
      if not (is_zero rc)
      then (rc, s)
      else if not (is_zero rc')
      then (rc', s')
      else if joined
      then (pos 0, s')
      else (fail Err.not_joined, s')

  -- `rzi_lorawan_send`; `payload` is `none` for NULL, and `size` is then free.
  unfoldable pub send : Bool → ℕ → Option (List ℕ) → ℕ → ℕ → Lorawan h → ℤ × Lorawan h
  unfolding check_joined
  send isr port payload size type s =
      let (rc, s') = check_joined isr s in
      let (rc', w) = h.send port (bytes_of payload) type (h.mac_commands_on_uplink s'.world) in
      if is_null payload && not (size == 0) || (bad_port port || not (message_type_valid type))
      then (fail Err.invalid, s)
      else if ltb max_payload size
      then (fail Err.too_large, s)
      else if not (is_zero rc)
      then (rc, s')
      else (rc', record s' { world = w })

  pub send_empty : Bool → Bool → ℕ → ℕ → Lorawan h → ℤ × Lorawan h
  unfolding check_joined
  send_empty isr with_port port type s =
      let rc = check_started h isr s in
      let (rc', s') = check_joined isr s in
      if with_port && bad_port port || not (message_type_valid type)
      then (fail Err.invalid, s)
      else if not (is_zero rc)
      then (rc, s)
      else elim h.send_empty [
        | none ↦ (fail Err.not_supported, s)
        | some op ↦
            let (rc'', w) = op with_port port type (h.mac_commands_on_uplink s'.world) in
            if not (is_zero rc') then (rc', s') else (rc'', record s' { world = w })
      ]

  pub is_joined : Bool → Bool → Lorawan h → ℤ × Option Bool × Lorawan h
  is_joined isr null s =
      let rc = check_started h isr s in
      let (rc', joined, w) = h.is_joined s.world in
      if null
      then (fail Err.invalid, none, s)
      else if not (is_zero rc)
      then (rc, none, s)
      else (rc', some joined, record s { world = w })

  unfoldable pub get_last_rssi : Bool → Bool → Lorawan h → ℤ × Option ℤ
  get_last_rssi isr null s =
      if isr
      then (fail Err.isr, none)
      else if null
      then (fail Err.invalid, none)
      else if not s.last_downlink_valid
      then (fail Err.no_data, none)
      else (pos 0, some s.last_rssi_dbm)

  unfoldable pub get_last_snr : Bool → Bool → Lorawan h → ℤ × Option ℤ
  get_last_snr isr null s =
      if isr
      then (fail Err.isr, none)
      else if null
      then (fail Err.invalid, none)
      else if not s.last_downlink_valid
      then (fail Err.no_data, none)
      else (pos 0, some s.last_snr_quarter_db)

  pub is_busy : Bool → Bool → Lorawan h → ℤ × Option Bool × Lorawan h
  is_busy isr null s =
      let (rc, busy, w) = h.is_busy s.world in
      if isr
      then (fail Err.isr, none, s)
      else if null
      then (fail Err.invalid, none, s)
      else if not s.started
      then (pos 0, some false, s)
      else (rc, some busy, record s { world = w })
