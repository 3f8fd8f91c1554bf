-- ===== src/Lora/Cipher.antt =====
-- The payload cipher is its own inverse, so that a receiver with the sender's settings gets the payload.
use rzi.Prelude.{
  ℕ, zero, suc, ◌≡◌, ◌+◌, ◌*◌, ◌/◌, ◌%◌, ◌^◌, ◌<◌, refl, ap, ◌∙◌, Bool, true, false, not, ◌&&◌,
  List, [], ◌∷◌, ℤ, some, length, get_or, take, ltb, leb, ◌==◌, if◌then◌else◌, arith,
}
use rzi.Lora.{
  Config, xor_bits, cipher_from, apply_cipher, publish_rx, Callbacks, max_payload, Radio, Lora,
  send, send_with,
}
use rzi.Lorawan.Lifecycle.{check_thread}
use native.Mathlib.Omega.{pow_step}

xor_bits-involutive : (n a b : ℕ) → a < 2 ^ n → xor_bits n (xor_bits n a b) b ≡ a
unfolding xor_bits
xor_bits-involutive zero a b below = ground (arith, below)
xor_bits-involutive (suc n) a b below =
    let q = xor_bits n (a / 2) (b / 2) in
    let half : ((a % 2 + b % 2) % 2 + 2 * q) / 2 ≡ q = omega arith in
    let low : (((a % 2 + b % 2) % 2 + 2 * q) % 2 + b % 2) % 2 ≡ a % 2 = omega arith in
    let rest = xor_bits-involutive n (a / 2) (b / 2) (omega (arith, pow_step 2 n, below)) in
    rw (half, low, rest) (omega arith)

-- Every element is a byte.
unfoldable pub all_bytes : List ℕ → Bool
all_bytes [] = true
all_bytes (d ∷ ds) = ltb d 256 && all_bytes ds

cipher_from-involutive :
    (i : ℕ) (c : Config) (ds : List ℕ)
    → all_bytes ds ≡ true
    → cipher_from i c (cipher_from i c ds) ≡ ds
unfolding cipher_from all_bytes
cipher_from-involutive i c [] bytes = refl
cipher_from-involutive i c (d ∷ ds) bytes =
    let mask = xor_bits 8 (get_or c.key (i % 16) 0) (get_or c.iv (i % 16) 0) in
    rw
      (
        xor_bits-involutive 8 d mask (ground (arith, bytes)),
        cipher_from-involutive (i + 1) c ds (ground (arith, bytes)),
      )
      refl

length-cipher_from : (i : ℕ) (c : Config) (ds : List ℕ) → length (cipher_from i c ds) ≡ length ds
unfolding cipher_from
length-cipher_from i c [] = refl
length-cipher_from i c (d ∷ ds) = ground (arith, length-cipher_from (i + 1) c ds)

pub length-apply_cipher : (c : Config) (ds : List ℕ) → length (apply_cipher c ds) ≡ length ds
unfolding apply_cipher
length-apply_cipher c ds = ground (arith, length-cipher_from 0 c ds)

apply_cipher-involutive :
    (c : Config) (ds : List ℕ) → all_bytes ds ≡ true → apply_cipher c (apply_cipher c ds) ≡ ds
unfolding apply_cipher
apply_cipher-involutive c ds bytes = either c.encrypt
  where
    either :
        (b : Bool)
        → (if b
            then cipher_from 0 c (if b then cipher_from 0 c ds else ds)
            else (if b then cipher_from 0 c ds else ds))
          ≡ ds
    either true = cipher_from-involutive 0 c ds bytes
    either false = refl

take_all : (n : ℕ) (ds : List ℕ) → leb (length ds) n ≡ true → take n ds ≡ ds
take_all zero [] e = refl
take_all zero (d ∷ ds) e = ground (arith, e)
take_all (suc n) [] e = refl
take_all (suc n) (d ∷ ds) e = ground (arith, e, take_all n ds)

published :
    (c : Config) (cb : Callbacks) (f : ℕ) (ds : List ℕ)
    → leb 1 (length ds) ≡ true
    → cb.rx_done ≡ some f
    → publish_rx c cb ds ≡ some (f, apply_cipher c (take max_payload ds))
unfolding publish_rx
published c cb f [] e known = ground (arith, e)
published c cb f (d ∷ ds) e known = rw known refl

module _ (r : Radio) where
  sent :
      (op : List ℕ → r.W → ℤ × r.W) (ds : List ℕ) (s : Lora r)
      → r.send ≡ some op
      → s.started ≡ true
      → (leb 1 (length ds) && leb (length ds) max_payload) ≡ true
      → let (rc, w) = op (apply_cipher s.config ds) s.world in
        send r false ds s ≡ (rc, record s { world = w })
  unfolding send send_with check_thread
  sent op ds s able up size =
      let long : (length ds == 0) ≡ false = ground (arith, size) in
      let short : ltb max_payload (length ds) ≡ false = ground (arith, size) in
      skip _ _ _ long
      ∙ skip _ _ _ short
      ∙ skip _ _ _ (ap not up)
      ∙ ap (λ o. send_with r o (apply_cipher s.config ds) s) able
    where
      skip : (x y : ℤ × Lora r) (b : Bool) → b ≡ false → (if b then x else y) ≡ y
      skip x y b e = rw e refl

  -- When the service is started and the radio can send, a payload of 1 to 255 bytes is handed to the
  -- radio as one frame of the same length, and nothing but the radio changes; a receiver with the
  -- sender's configuration and a receive callback hands exactly the payload to the callback.
  pub send-publish_rx :
      (op : List ℕ → r.W → ℤ × r.W) (ds : List ℕ) (s : Lora r) (cb : Callbacks) (f : ℕ)
      → r.send ≡ some op
      → s.started ≡ true
      → all_bytes ds ≡ true
      → (leb 1 (length ds) && leb (length ds) max_payload) ≡ true
      → cb.rx_done ≡ some f
      → let frame = apply_cipher s.config ds in
        let (rc, w) = op frame s.world in
        (send r false ds s ≡ (rc, record s { world = w }))
        × (length frame ≡ length ds)
        × (publish_rx s.config cb frame ≡ some (f, ds))
  send-publish_rx op ds s cb f able up bytes size known =
      let frame = apply_cipher s.config ds in
      let same : length frame ≡ length ds = length-apply_cipher s.config ds in
      let whole : take max_payload frame ≡ frame =
        take_all max_payload frame (ground (arith, same, size)) in
      (
        sent op ds s able up size,
        same,
        published s.config cb f frame (ground (arith, same, size)) known
            ∙ ap (λ x. some (f, apply_cipher s.config x)) whole
            ∙ ap (λ x. some (f, x)) (apply_cipher-involutive s.config ds bytes),
      )
