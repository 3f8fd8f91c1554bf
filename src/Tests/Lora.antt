-- ===== src/Tests/Lora.antt =====
-- Two radios: one that puts its frames into its state, and the receiver of the last frame.
use rzi.Prelude.{ℕ, ◌≡◌, refl, Bool, true, false, List, [], ◌∷◌, ℤ, pos, none, some, length}
use rzi.Lorawan.Lifecycle.{check_thread}
use rzi.Lora.{
  Radio, Lora, Config, Callbacks, mod_lora, initial_config, apply_cipher, cipher_from, xor_bits,
  publish_rx, send, push_config, init, start_with, receive, receive_with, set_config, stop,
}
use rzi.Lora.Cipher.{all_bytes, send-publish_rx}
use rzi.Lora.Runs.{call_init, call_config, call_receive, call_stop, Call, booted, run, step}

abbrev on_air : List ℕ → List (List ℕ) → ℤ × List (List ℕ)
on_air frame w = (pos 0, frame ∷ w)

abbrev air : Radio
air = record {
  W = List (List ℕ);
  start = some (λ m w. (pos 0, w));
  stop = none;
  apply_config = none;
  send = some on_air;
  receive = some (λ t w. (pos 0, w));
}

abbrev secret : Config
secret = record initial_config { encrypt = true; key = 7 ∷ 255 ∷ []; iv = 1 ∷ 1 ∷ [] }

abbrev sender : Lora air
sender = record {
  started = true;
  modulation = mod_lora;
  config = secret;
  callbacks = record { tx_done = none; rx_done = none };
  rx_active = false;
  world = [];
}

abbrev listener : Callbacks
listener = record { tx_done = none; rx_done = some 9 }

abbrev greeting : List ℕ
greeting = 104 ∷ 105 ∷ []

frame_of_greeting : apply_cipher secret greeting ≡ 110 ∷ 151 ∷ []
unfolding apply_cipher cipher_from xor_bits
frame_of_greeting = refl

send-publish_rx_example :
    let frame = apply_cipher secret greeting in
    (send air false greeting sender ≡ (pos 0, record sender { world = frame ∷ [] }))
    × (length frame ≡ 2)
    × (publish_rx secret listener frame ≡ some (9, greeting))
unfolding all_bytes
send-publish_rx_example =
    send-publish_rx air on_air greeting sender listener 9 refl refl refl refl refl

abbrev calls : List (Bool × Call)
calls =
    (false, call_init mod_lora)
    ∷ (false, call_receive 1000)
    ∷ (false, call_config (some (record initial_config { coding_rate = 4 })))
    ∷ (true, call_stop)
    ∷ []

-- The bad coding rate and the stop from an interrupt are refused.
still_receiving : (run air calls (booted air [])).rx_active ≡ true
unfolding run step init start_with push_config receive receive_with set_config stop check_thread
still_receiving = refl
