-- ===== src/Lora.antt =====
-- src/lora/lora.c: the raw LoRa and FSK service over one radio backend.
-- A call that takes `lock` holds it for its whole body, so a call is one step.
pub mod Cipher
pub mod Runs
use rzi.Prelude.{
  ℕ, zero, suc, ◌+◌, ◌*◌, ◌/◌, ◌%◌, Bool, true, false, not, ◌&&◌, ◌||◌, List, [], ◌∷◌, ℤ, pos,
  Option, none, some, length, get_or, take, ltb, ltb_ℤ, ◌==◌, if◌then◌else◌, is_zero, is_null,
}
use rzi.Err.{Err, fail}
use rzi.Lorawan.Lifecycle.{check_thread}
use rzi.Settings.{zeros}

-- `enum rzi_lora_modulation`, without the numbers of a cast that are out of range.
pub data Modulation : Type 0 where
  mod_lora mod_fsk : Modulation

-- RZI_LORA_MAX_PAYLOAD.
abbrev pub max_payload : ℕ
max_payload = 255

-- `struct rzi_lora_config`; the key and the IV have 16 bytes.
pub record Config : Type 0 where
  pub frequency_hz : ℕ
  pub spreading_factor : ℕ
  pub bandwidth : ℕ
  pub coding_rate : ℕ
  pub preamble_length : ℕ
  pub tx_power_dbm : ℤ
  pub sync_word : ℕ
  pub iq_inverted : Bool
  pub encrypt : Bool
  pub key : List ℕ
  pub iv : List ℕ
  pub cad : Bool
  pub fixed_length : Bool
  pub fsk_bitrate : ℕ
  pub fsk_deviation : ℕ
  pub symbol_timeout : ℕ

-- The initial value of `config`.
abbrev pub initial_config : Config
initial_config = record {
  frequency_hz = 868000000;
  spreading_factor = 7;
  bandwidth = 0;
  coding_rate = 0;
  preamble_length = 8;
  tx_power_dbm = pos 14;
  sync_word = 0x3444;
  iq_inverted = false;
  encrypt = false;
  key = zeros 16;
  iv = zeros 16;
  cad = false;
  fixed_length = false;
  fsk_bitrate = 49152;
  fsk_deviation = 5000;
  symbol_timeout = 0;
}

-- `struct rzi_lora_backend_api`, but for the radio tests; NULL is `none`.
pub record Radio : Type 1 where
  pub W : Type 0
  pub start : Option (Modulation → W → ℤ × W)
  pub stop : Option (W → ℤ × W)
  pub apply_config : Option (Config → W → ℤ × W)
  pub send : Option (List ℕ → W → ℤ × W)
  pub receive : Option (ℕ → W → ℤ × W)

-- The exclusive or of two numbers of `n` bits.
unfoldable pub xor_bits : ℕ → ℕ → ℕ → ℕ
xor_bits zero a b = 0
xor_bits (suc n) a b = (a % 2 + b % 2) % 2 + 2 * xor_bits n (a / 2) (b / 2)

-- The loop of `apply_cipher` from position `i` on.
unfoldable pub cipher_from : ℕ → Config → List ℕ → List ℕ
cipher_from i c [] = []
cipher_from i c (d ∷ ds) =
    xor_bits 8 d (xor_bits 8 (get_or c.key (i % 16) 0) (get_or c.iv (i % 16) 0))
    ∷ cipher_from (i + 1) c ds

unfoldable pub apply_cipher : Config → List ℕ → List ℕ
apply_cipher c data' = if c.encrypt then cipher_from 0 c data' else data'

-- The check of `rzi_lora_set_config`.
abbrev pub config_valid : Config → Bool
config_valid c =
    (not (ltb c.spreading_factor 5) && not (ltb 12 c.spreading_factor))
    && ((not (ltb_ℤ c.tx_power_dbm (pos 5)) && not (ltb_ℤ (pos 22) c.tx_power_dbm))
        && (not (ltb c.preamble_length 5) && not (ltb 3 c.coding_rate)))

-- `struct rzi_lora_callbacks`: functions are numbers, NULL is `none`.
pub record Callbacks : Type 0 where
  pub tx_done : Option ℕ
  pub rx_done : Option ℕ

-- What `rzi_lora_publish_rx` hands to the callback: the callback and the payload.
unfoldable pub publish_rx : Config → Callbacks → List ℕ → Option (ℕ × List ℕ)
publish_rx c cb [] = none
publish_rx c cb (d ∷ ds) = elim cb.rx_done [
  | none ↦ none
  | some f ↦ some (f, apply_cipher c (take max_payload (d ∷ ds)))
]

module _ (r : Radio) where
  -- The statics of the file, and the radio.
  pub record Lora : Type 0 where
    pub started : Bool
    pub modulation : Modulation
    pub config : Config
    pub callbacks : Callbacks
    pub rx_active : Bool
    pub world : r.W

  unfoldable pub register_callbacks : Bool → Option Callbacks → Lora → ℤ × Lora
  register_callbacks isr none s =
      (if is_zero (check_thread isr) then fail Err.invalid else check_thread isr, s)
  register_callbacks isr (some cb) s =
      if is_zero (check_thread isr)
      then (pos 0, record s { callbacks = cb })
      else (check_thread isr, s)

  -- Pushing the stored configuration, when the backend can.
  unfoldable pub push_config : Option (Config → r.W → ℤ × r.W) → Lora → ℤ × Lora
  push_config none s = (pos 0, s)
  push_config (some op) s = let (rc, w) = op s.config s.world in (rc, record s { world = w })

  unfoldable pub start_with : Option (Modulation → r.W → ℤ × r.W) → Modulation → Lora → ℤ × Lora
  start_with none value s = (fail Err.not_supported, s)
  start_with (some op) value s =
      let (rc, w) = op value s.world in
      if is_zero rc
      then push_config r.apply_config (record s { modulation = value; started = true; world = w })
      else (rc, record s { world = w })

  -- `rzi_lora_init`.
  unfoldable pub init : Bool → Modulation → Lora → ℤ × Lora
  init isr value s =
      if is_zero (check_thread isr) then start_with r.start value s else (check_thread isr, s)

  abbrev pub stop_op : Option (r.W → ℤ × r.W) → r.W → ℤ × r.W
  stop_op none w = (pos 0, w)
  stop_op (some op) w = op w

  -- `rzi_lora_stop`.
  unfoldable pub stop : Bool → Lora → ℤ × Lora
  stop isr s =
      let (rc, w) = stop_op r.stop s.world in
      if not (is_zero (check_thread isr))
      then (check_thread isr, s)
      else if is_zero rc
      then (pos 0, record s { started = false; rx_active = false; world = w })
      else (rc, record s { world = w })

  -- A configuration that is NULL is `none`.
  unfoldable pub set_config : Bool → Option Config → Lora → ℤ × Lora
  set_config isr none s =
      (if is_zero (check_thread isr) then fail Err.invalid else check_thread isr, s)
  set_config isr (some c) s =
      let t : Lora = record s { config = c } in
      if not (is_zero (check_thread isr))
      then (check_thread isr, s)
      else if not (config_valid c)
      then (fail Err.invalid, s)
      else if s.started
      then push_config r.apply_config t
      else (pos 0, t)

  unfoldable pub send_with : Option (List ℕ → r.W → ℤ × r.W) → List ℕ → Lora → ℤ × Lora
  send_with none framed s = (fail Err.not_supported, s)
  send_with (some op) framed s = let (rc, w) = op framed s.world in (rc, record s { world = w })

  -- A payload that is NULL is the empty list.
  unfoldable pub send : Bool → List ℕ → Lora → ℤ × Lora
  send isr data' s =
      if not (is_zero (check_thread isr))
      then (check_thread isr, s)
      else if length data' == 0
      then (fail Err.invalid, s)
      else if ltb max_payload (length data')
      then (fail Err.too_large, s)
      else if not s.started
      then (fail Err.not_supported, s)
      else send_with r.send (apply_cipher s.config data') s

  unfoldable pub receive_with : Option (ℕ → r.W → ℤ × r.W) → ℕ → Lora → ℤ × Lora
  receive_with none timeout_ms s = (fail Err.not_supported, s)
  receive_with (some op) timeout_ms s =
      let (rc, w) = op timeout_ms s.world in
      (
        rc,
        record s {
          rx_active = if is_zero rc then not (timeout_ms == 0) else s.rx_active;
          world = w;
        },
      )

  -- It takes no lock: as one step it says nothing of calls that overlap it.
  unfoldable pub receive : Bool → ℕ → Lora → ℤ × Lora
  receive isr timeout_ms s =
      if not (is_zero (check_thread isr))
      then (check_thread isr, s)
      else if not s.started
      then (fail Err.not_supported, s)
      else receive_with r.receive timeout_ms s
