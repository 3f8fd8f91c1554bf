-- ===== src/Commands.antt =====
-- What the AT commands for LoRaWAN and raw LoRa share, src/at/commands/lorawan/at_lorawan.c and
-- src/at/commands/lora/at_lora.c: hexadecimal text, Boolean arguments and band numbers. `Keys` has
-- the commands for keys and EUIs, `ClassB` those for Class B and certification, `Mode` the network
-- mode, `Multicast` the multicast groups.
pub mod ClassB
pub mod Hex
pub mod Keys
pub mod Mode
pub mod Multicast
use rzi.Prelude.{
  ℕ, zero, suc, ◌+◌, ◌-◌, ◌*◌, ◌/◌, ◌%◌, Bool, true, false, not, ◌&&◌, ◌||◌, List, [], ◌∷◌, Option,
  none, some, length, codes, eq_bytes, ltb, leb, ◌==◌, if◌then◌else◌,
}

-- `value >= low && value <= high`.
abbrev pub between : ℕ → ℕ → ℕ → Bool
between low high value = leb low value && leb value high

-- `hex_nibble`; `none` is -1. The characters are '0' to '9', 'A' to 'F' and 'a' to 'f'.
unfoldable pub hex_nibble : ℕ → Option ℕ
hex_nibble value =
    if between 48 57 value
    then some (value - 48)
    else if between 65 70 value
    then some (value - 65 + 10)
    else if between 97 102 value
    then some (value - 97 + 10)
    else none

-- One round of the loop of `rzi_at_lorawan_hex_to_bin`.
abbrev pub hex_byte : Option ℕ → Option ℕ → Option (List ℕ) → Option (List ℕ)
hex_byte (some high) (some low) (some rest) = some ((16 * high + low) ∷ rest)
hex_byte _ _ _ = none

unfoldable pub hex_bytes : List ℕ → Option (List ℕ)
hex_bytes [] = some []
hex_bytes (a ∷ []) = none
hex_bytes (a ∷ b ∷ text) = hex_byte (hex_nibble a) (hex_nibble b) (hex_bytes text)

-- `rzi_at_lorawan_hex_to_bin` and `rzi_at_lora_hex_to_bin`; `none` is -RZI_ERR_INVALID.
unfoldable pub hex_to_bin : List ℕ → ℕ → Option (List ℕ)
hex_to_bin hex out_len = if length hex == out_len * 2 then hex_bytes hex else none

-- `digits`.
abbrev pub hex_digit : ℕ → ℕ
hex_digit d = if ltb d 10 then 48 + d else 55 + d

-- `rzi_at_lorawan_bin_to_hex` and `rzi_at_lora_bin_to_hex`, without the final NUL.
unfoldable pub bin_to_hex : List ℕ → List ℕ
bin_to_hex [] = []
bin_to_hex (b ∷ bs) = hex_digit (b / 16) ∷ hex_digit (b % 16) ∷ bin_to_hex bs

-- `rzi_at_lorawan_parse_bool` and `rzi_at_lora_parse_bool`; `none` is -RZI_ERR_INVALID.
unfoldable pub parse_bool : List ℕ → Option Bool
parse_bool argument =
    if eq_bytes argument (codes "0")
    then some false
    else if eq_bytes argument (codes "1")
    then some true
    else none

-- The cases of `rzi_at_lorawan_band_to_region`, from band 1 on.
abbrev pub regions : List ℕ
regions = 3 ∷ 10 ∷ 8 ∷ 0 ∷ 1 ∷ 2 ∷ 9 ∷ 4 ∷ 5 ∷ 6 ∷ 7 ∷ []

abbrev pub nth : ℕ → List ℕ → Option ℕ
nth i [] = none
nth zero (x ∷ xs) = some x
nth (suc i) (x ∷ xs) = nth i xs

-- `rzi_at_lorawan_band_to_region`; `none` is -RZI_ERR_INVALID.
unfoldable pub band_to_region : ℕ → Option ℕ
band_to_region zero = none
band_to_region (suc band) = nth band regions

abbrev pub position : ℕ → ℕ → List ℕ → Option ℕ
position i x [] = none
position i x (y ∷ ys) = if x == y then some i else position (i + 1) x ys

abbrev pub or_default : Option ℕ → ℕ
or_default none = 4
or_default (some band) = band

-- `rzi_at_lorawan_region_to_band`: the same cases the other way, and 4 for any other number.
unfoldable pub region_to_band : ℕ → ℕ
region_to_band region = or_default (position 1 region regions)
