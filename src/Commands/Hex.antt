-- ===== src/Commands/Hex.antt =====
-- The hexadecimal codec of the AT commands, and the tables of bands and regions.
use rzi.Prelude.{
  ℕ, zero, suc, ◌≡◌, ◌+◌, ◌-◌, ◌*◌, ◌/◌, ◌%◌, ◌<◌, refl, ap, true, List, [], ◌∷◌, Option, none,
  some, length, if◌then◌else◌, arith,
}
use rzi.Commands.{
  hex_nibble, hex_byte, hex_bytes, hex_to_bin, hex_digit, bin_to_hex, between, band_to_region,
  region_to_band,
}
use rzi.Lora.Cipher.{all_bytes}

-- A character in upper case.
abbrev pub upper : ℕ → ℕ
upper c = if between 97 122 c then c - 32 else c

abbrev pub upper_all : List ℕ → List ℕ
upper_all [] = []
upper_all (c ∷ cs) = upper c ∷ upper_all cs

nibble-digit : (d : ℕ) → d < 16 → hex_nibble (hex_digit d) ≡ some d
unfolding hex_nibble
nibble-digit d below = ground (arith, below)

-- A digit that is read is printed in upper case.
digit-nibble : (c d : ℕ) → hex_nibble c ≡ some d → (hex_digit d ≡ upper c) × (d < 16)
unfolding hex_nibble
digit-nibble c d e = ground (arith, e)

length-bin_to_hex : (v : List ℕ) → length (bin_to_hex v) ≡ length v * 2
unfolding bin_to_hex
length-bin_to_hex [] = refl
length-bin_to_hex (b ∷ bs) = ground (arith, length-bin_to_hex bs)

hex_bytes-bin_to_hex : (v : List ℕ) → all_bytes v ≡ true → hex_bytes (bin_to_hex v) ≡ some v
unfolding hex_bytes bin_to_hex all_bytes
hex_bytes-bin_to_hex [] bytes = refl
hex_bytes-bin_to_hex (b ∷ bs) bytes =
    let whole : 16 * (b / 16) + b % 16 ≡ b = omega arith in
    rw
      (
        nibble-digit (b / 16) (ground (arith, bytes)),
        nibble-digit (b % 16) (ground arith),
        hex_bytes-bin_to_hex bs (ground (arith, bytes)),
      )
      (ap (λ x. some (x ∷ bs)) whole)

-- Bytes that are printed in hexadecimal are read back.
pub hex_to_bin-bin_to_hex :
    (v : List ℕ) → all_bytes v ≡ true → hex_to_bin (bin_to_hex v) (length v) ≡ some v
unfolding hex_to_bin
hex_to_bin-bin_to_hex v bytes = ground (arith, length-bin_to_hex v, hex_bytes-bin_to_hex v bytes)

bin_to_hex_step :
    (h l : ℕ) (v : List ℕ)
    → h < 16
    → l < 16
    → bin_to_hex ((16 * h + l) ∷ v) ≡ hex_digit h ∷ hex_digit l ∷ bin_to_hex v
unfolding bin_to_hex
bin_to_hex_step h l v high low =
    let top : (16 * h + l) / 16 ≡ h = omega (arith, low) in
    let rest : (16 * h + l) % 16 ≡ l = omega (arith, low) in rw (top, rest) refl

-- The text of the bytes, given what its first two digits and the rest are read as.
digits-bin_to_hex :
    (a b : ℕ) (text v : List ℕ) (high low : Option ℕ) (rest : Option (List ℕ))
    → hex_nibble a ≡ high
    → hex_nibble b ≡ low
    → ((w : List ℕ)
        → rest ≡ some w
        → (bin_to_hex w ≡ upper_all text) × (length text ≡ length w * 2))
    → hex_byte high low rest ≡ some v
    → (bin_to_hex v ≡ upper a ∷ upper b ∷ upper_all text) × (suc (suc (length text)) ≡ length v * 2)
digits-bin_to_hex a b text v none low rest ea eb er e = ground (arith, e)
digits-bin_to_hex a b text v (some h) none rest ea eb er e = ground (arith, e)
digits-bin_to_hex a b text v (some h) (some l) none ea eb er e = ground (arith, e)
digits-bin_to_hex a b text v (some h) (some l) (some w) ea eb er e =
    let (top, high) = digit-nibble a h ea in
    let (bottom, low) = digit-nibble b l eb in
    let (same, size) = er w refl in
    let v≡ : v ≡ (16 * h + l) ∷ w = ground (arith, e) in
    rw (v≡, bin_to_hex_step h l w high low, top, bottom, same) (refl, ground (arith, size))

-- Text that is read is printed back in upper case, and it was twice as long as the bytes.
bin_to_hex-hex_bytes :
    (text v : List ℕ)
    → hex_bytes text ≡ some v
    → (bin_to_hex v ≡ upper_all text) × (length text ≡ length v * 2)
unfolding hex_bytes bin_to_hex
bin_to_hex-hex_bytes [] v e = let empty : v ≡ [] = ground (arith, e) in rw empty (refl, refl)
bin_to_hex-hex_bytes (a ∷ []) v e = ground (arith, e)
bin_to_hex-hex_bytes (a ∷ b ∷ text) v e =
    digits-bin_to_hex a b text v (hex_nibble a) (hex_nibble b) (hex_bytes text) refl refl
      (bin_to_hex-hex_bytes text) e

pub bin_to_hex-hex_to_bin :
    (text v : List ℕ) (n : ℕ)
    → hex_to_bin text n ≡ some v
    → (bin_to_hex v ≡ upper_all text) × (length v ≡ n)
unfolding hex_to_bin
bin_to_hex-hex_to_bin text v n e =
    let read : hex_bytes text ≡ some v = ground (arith, e) in
    let (same, size) = bin_to_hex-hex_bytes text v read in (same, ground (arith, e, size))

-- The bands 1 to 11 and the regions are the same table both ways.
region_to_band-band_to_region :
    (band region : ℕ) → band_to_region band ≡ some region → region_to_band region ≡ band
unfolding band_to_region region_to_band
region_to_band-band_to_region zero region e = ground (arith, e)
region_to_band-band_to_region (suc zero) region e = ground (arith, e)
region_to_band-band_to_region (suc (suc zero)) region e = ground (arith, e)
region_to_band-band_to_region (suc (suc (suc zero))) region e = ground (arith, e)
region_to_band-band_to_region (suc (suc (suc (suc zero)))) region e = ground (arith, e)
region_to_band-band_to_region (suc (suc (suc (suc (suc zero))))) region e = ground (arith, e)
region_to_band-band_to_region (suc (suc (suc (suc (suc (suc zero)))))) region e = ground (arith, e)
region_to_band-band_to_region (suc (suc (suc (suc (suc (suc (suc zero))))))) region e =
    ground (arith, e)
region_to_band-band_to_region (suc (suc (suc (suc (suc (suc (suc (suc zero)))))))) region e =
    ground (arith, e)
region_to_band-band_to_region (suc (suc (suc (suc (suc (suc (suc (suc (suc zero))))))))) region e =
    ground (arith, e)
region_to_band-band_to_region (suc (suc (suc (suc (suc (suc (suc (suc (suc (suc zero))))))))))
      region e =
    ground (arith, e)
region_to_band-band_to_region (suc (suc (suc (suc (suc (suc (suc (suc (suc (suc (suc zero)))))))))))
      region e =
    ground (arith, e)
region_to_band-band_to_region
      (suc (suc (suc (suc (suc (suc (suc (suc (suc (suc (suc (suc band)))))))))))) region e =
    ground (arith, e)
