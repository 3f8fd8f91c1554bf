-- ===== src/Lora/Runs.antt =====
-- What holds after every sequence of calls of the raw radio service.
use rzi.Prelude.{ℕ, ◌≡◌, Bool, true, false, not, ◌&&◌, ◌||◌, List, [], ◌∷◌, ℤ, Option, none}
use rzi.Err.{Err}
use rzi.Lora.{
  Radio, Lora, Modulation, mod_lora, Config, Callbacks, initial_config, config_valid,
  register_callbacks, init, stop, set_config, send, receive,
}

pub data Call : Type 0 where
  call_register : Option Callbacks → Call
  call_init : Modulation → Call
  call_stop : Call
  call_config : Option Config → Call
  call_send : List ℕ → Call
  call_receive : ℕ → Call

-- The radio receives only while the service is started, and the configuration is in its bounds.
abbrev pub is_sound : {r : Radio} → Lora r → Bool
is_sound s = (not s.rx_active || s.started) && config_valid s.config

module _ (r : Radio) where
  abbrev pub booted : r.W → Lora r
  booted w = record {
    started = false;
    modulation = mod_lora;
    config = initial_config;
    callbacks = record { tx_done = none; rx_done = none };
    rx_active = false;
    world = w;
  }

  unfoldable pub step : Bool → Call → Lora r → ℤ × Lora r
  step isr (call_register cb) s = register_callbacks r isr cb s
  step isr (call_init m) s = init r isr m s
  step isr call_stop s = stop r isr s
  step isr (call_config c) s = set_config r isr c s
  step isr (call_send ds) s = send r isr ds s
  step isr (call_receive timeout_ms) s = receive r isr timeout_ms s

  -- Each call says whether it is made in an interrupt.
  unfoldable pub run : List (Bool × Call) → Lora r → Lora r
  run [] s = s
  run ((isr, x) ∷ xs) s = run xs (step isr x s).1

  Sound : ℤ × Lora r → Type 0
  Sound (_, s) = is_sound s ≡ true
