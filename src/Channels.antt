-- ===== src/Channels.antt =====
-- src/lorawan/api/lorawan_channel.c: the channel mask, sub-bands and fixed channels of the regions
-- with a fixed plan, on top of the mask that the credentials keep.
pub mod Trips
pub mod RoundTrips
use rzi.Prelude.{
  ℕ, zero, suc, ◌+◌, ◌-◌, ◌*◌, ◌/◌, ◌%◌, ◌^◌, Bool, true, false, not, ◌&&◌, ◌||◌, List, [], ◌∷◌,
  ◌++◌, ℤ, pos, Option, none, some, length, get_or, set, eq_bytes, ltb, ◌==◌, if◌then◌else◌,
  is_zero,
}
use rzi.Err.{Err, fail}
use rzi.Settings.{zeros, channel_mask_words}
use rzi.Lorawan.Lifecycle.{check_thread}
use rzi.Credentials.{SettingsApi, Credentials, fixed_plan_channels, has_channel}
use rzi.Credentials.Policy.{
  get_channel_mask, set_channel_mask, region_us_915, region_au_915, has_channels,
}

-- RZI_LORAWAN_FIXED_PLAN_WIDE and _WORDS, NARROW_STEP_HZ, WIDE_STEP_HZ and SUB_BANDS.
abbrev pub fixed_plan_wide : ℕ
fixed_plan_wide = 64

abbrev pub fixed_plan_words : ℕ
fixed_plan_words = 5

abbrev pub narrow_step_hz : ℕ
narrow_step_hz = 200000

abbrev pub wide_step_hz : ℕ
wide_step_hz = 1600000

abbrev pub sub_bands : ℕ
sub_bands = 8

-- `struct channel_plan`.
pub record Plan : Type 0 where
  pub narrow_base_hz : ℕ
  pub wide_base_hz : ℕ

abbrev pub us_915 : Plan
us_915 = record { narrow_base_hz = 902300000; wide_base_hz = 903000000 }

abbrev pub au_915 : Plan
au_915 = record { narrow_base_hz = 915200000; wide_base_hz = 915900000 }

-- `channel_plan`; `got` and `region` are what `rzi_lorawan_get_region` gives.
unfoldable pub channel_plan : ℕ → ℤ × ℕ → ℤ × Plan
channel_plan capabilities (got, region) =
    if not (is_zero got)
    then (got, us_915)
    else if not (has_channels capabilities)
    then (fail Err.not_supported, us_915)
    else if region == region_us_915
    then (pos 0, us_915)
    else if region == region_au_915
    then (pos 0, au_915)
    else (fail Err.not_supported, us_915)

-- `mask[channel / 16U] |= BIT(channel % 16U)`.
abbrev pub put_channel : ℕ → List ℕ → List ℕ
put_channel channel mask =
    if has_channel mask channel
    then mask
    else set mask (channel / 16) (get_or mask (channel / 16) 0 + 2 ^ (channel % 16))

-- The loop over `n` channels from `channel` on.
abbrev pub put_channels : ℕ → ℕ → List ℕ → List ℕ
put_channels zero channel mask = mask
put_channels (suc n) channel mask = put_channels n (channel + 1) (put_channel channel mask)

abbrev pub no_mask : List ℕ
no_mask = zeros channel_mask_words

unfoldable pub all_channels : List ℕ
all_channels = put_channels fixed_plan_channels 0 no_mask

-- `sub_band_channels`, for a sub-band of at least 1.
unfoldable pub sub_band_channels : ℕ → List ℕ
sub_band_channels sub_band =
    put_channel (fixed_plan_wide + sub_band - 1) (put_channels 8 ((sub_band - 1) * 8) no_mask)

unfoldable pub channel_frequency : Plan → ℕ → ℕ
channel_frequency plan channel =
    if ltb channel fixed_plan_wide
    then plan.narrow_base_hz + channel * narrow_step_hz
    else plan.wide_base_hz + (channel - fixed_plan_wide) * wide_step_hz

-- The loop of `frequency_channel` over `n` channels from `channel` on.
unfoldable pub frequency_from : ℕ → ℕ → Plan → ℕ → ℤ
frequency_from zero channel plan frequency_hz = fail Err.invalid
frequency_from (suc n) channel plan frequency_hz =
    let rest = frequency_from n (channel + 1) plan frequency_hz in
    if channel_frequency plan channel == frequency_hz then pos channel else rest

unfoldable pub frequency_channel : Plan → ℕ → ℤ
frequency_channel plan frequency_hz = frequency_from fixed_plan_channels 0 plan frequency_hz

-- The first `words` words, with zeros past the mask.
abbrev pub copy_words : ℕ → List ℕ → List ℕ
copy_words zero mask = []
copy_words (suc n) [] = 0 ∷ copy_words n []
copy_words (suc n) (w ∷ ws) = w ∷ copy_words n ws

-- The loop over the sub-bands from `band` on: the first of which the mask is this one.
unfoldable pub find_band : ℕ → ℕ → List ℕ → ℤ × ℕ
find_band zero band mask = (fail Err.no_data, 0)
find_band (suc n) band mask =
    let rest = find_band n (band + 1) mask in
    if eq_bytes mask (sub_band_channels band) then (pos 0, band) else rest

-- The mask as a sub-band; 0 stands for all channels.
unfoldable pub band_of : List ℕ → ℤ × ℕ
band_of mask = if eq_bytes mask all_channels then (pos 0, 0) else find_band sub_bands 1 mask

-- `count` and `found` after the loop of `rzi_lorawan_get_fixed_channel`.
unfoldable pub enabled : ℕ → ℕ → List ℕ → ℕ × ℕ → ℕ × ℕ
enabled zero channel mask acc = acc
enabled (suc n) channel mask (count, found) =
    enabled n (channel + 1) mask
      (if has_channel mask channel then (count + 1, channel) else (count, found))

unfoldable pub only_frequency : Plan → List ℕ → ℕ
only_frequency plan mask =
    let (count, found) = enabled fixed_plan_channels 0 mask (0, 0) in
    if count == 1 then channel_frequency plan found else 0

module _ (a : SettingsApi) where
  unfoldable pub read_mask : Credentials a → ℤ × List ℕ × Credentials a
  read_mask s =
      let (rc, mask, is_set, t) = get_channel_mask a s in
      (rc, if is_zero rc && not is_set then all_channels else mask, t)

  unfoldable pub store_mask : List ℕ → Credentials a → ℤ × Credentials a
  store_mask mask s = set_channel_mask a (if eq_bytes mask all_channels then none else some mask) s

  -- The mask with the one channel of a frequency.
  unfoldable pub set_found : ℤ → Credentials a → ℤ × Credentials a
  set_found (pos channel) s = set_channel_mask a (some (put_channel channel no_mask)) s
  set_found rc s = (rc, s)

module _ (a : SettingsApi) (capabilities : ℕ) (region : ℤ × ℕ) where
  -- `words` is 0 for a destination that is NULL as well.
  unfoldable pub read_channel_mask : Bool → ℕ → Credentials a → ℤ × List ℕ × Credentials a
  read_channel_mask isr words s =
      let (rc, _) = channel_plan capabilities region in
      let (rc', mask, t) = read_mask a s in
      if not (is_zero (check_thread isr))
      then (check_thread isr, [], s)
      else if words == 0
      then (fail Err.invalid, [], s)
      else if not (is_zero rc)
      then (rc, [], s)
      else if ltb words fixed_plan_words
      then (fail Err.invalid, [], s)
      else if not (is_zero rc')
      then (rc', [], t)
      else (pos 0, copy_words words mask, t)

  -- The mask has as many words as are given; a source that is NULL is the empty list.
  unfoldable pub write_channel_mask : Bool → List ℕ → Credentials a → ℤ × Credentials a
  write_channel_mask isr mask s =
      let (rc, _) = channel_plan capabilities region in
      if not (is_zero (check_thread isr))
      then (check_thread isr, s)
      else if (length mask == 0) || ltb channel_mask_words (length mask)
      then (fail Err.invalid, s)
      else if not (is_zero rc)
      then (rc, s)
      else if ltb (length mask) fixed_plan_words
      then (fail Err.invalid, s)
      else store_mask a (copy_words channel_mask_words mask) s

  -- `has_room`: the destination is not NULL.
  unfoldable pub get_sub_band : Bool → Bool → Credentials a → ℤ × ℕ × Credentials a
  get_sub_band isr has_room s =
      let (rc, _) = channel_plan capabilities region in
      let (rc', mask, t) = read_mask a s in
      let (rc'', band) = band_of mask in
      if not (is_zero (check_thread isr))
      then (check_thread isr, 0, s)
      else if not has_room
      then (fail Err.invalid, 0, s)
      else if not (is_zero rc)
      then (rc, 0, s)
      else if not (is_zero rc')
      then (rc', 0, t)
      else (rc'', band, t)

  unfoldable pub set_sub_band : Bool → ℕ → Credentials a → ℤ × Credentials a
  set_sub_band isr band s =
      let (rc, _) = channel_plan capabilities region in
      if not (is_zero (check_thread isr))
      then (check_thread isr, s)
      else if not (is_zero rc)
      then (rc, s)
      else if ltb sub_bands band
      then (fail Err.invalid, s)
      else if band == 0
      then set_channel_mask a none s
      else store_mask a (sub_band_channels band) s

  unfoldable pub get_fixed_channel : Bool → Bool → Credentials a → ℤ × ℕ × Credentials a
  get_fixed_channel isr has_room s =
      let (rc, plan) = channel_plan capabilities region in
      let (rc', mask, t) = read_mask a s in
      if not (is_zero (check_thread isr))
      then (check_thread isr, 0, s)
      else if not has_room
      then (fail Err.invalid, 0, s)
      else if not (is_zero rc)
      then (rc, 0, s)
      else if not (is_zero rc')
      then (rc', 0, t)
      else (pos 0, only_frequency plan mask, t)

  unfoldable pub set_fixed_channel : Bool → ℕ → Credentials a → ℤ × Credentials a
  set_fixed_channel isr frequency_hz s =
      let (rc, plan) = channel_plan capabilities region in
      if not (is_zero (check_thread isr))
      then (check_thread isr, s)
      else if not (is_zero rc)
      then (rc, s)
      else if frequency_hz == 0
      then set_channel_mask a none s
      else set_found a (frequency_channel plan frequency_hz) s
