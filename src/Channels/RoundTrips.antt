-- ===== src/Channels/RoundTrips.antt =====
-- A sub-band or a fixed channel that was set is the one that is read.
use rzi.Prelude.{
  ℕ, zero, suc, ◌≡◌, ◌+◌, refl, sym, ◌∙◌, Bool, true, false, not, List, ℤ, pos, negsuc, Option,
  none, some, ltb, ◌==◌, ==_iff, if◌then◌else◌, is_zero, is_zero_iff, arith,
}
use rzi.Err.{Err, fail}
use rzi.Lorawan.Lifecycle.{check_thread}
use rzi.Credentials.{SettingsApi, Credentials}
use rzi.Credentials.Policy.{set_channel_mask}
use rzi.Channels.{
  Plan, no_mask, put_channel, all_channels, sub_band_channels, band_of, sub_bands, channel_plan,
  frequency_channel, enabled, only_frequency, read_mask, store_mask, set_sub_band, get_sub_band,
  set_found, set_fixed_channel, get_fixed_channel,
}
use rzi.Channels.Trips.{
  Holds, mask_of, set_channel_mask-Holds, store_mask-Holds, band_found, all_is_band, only_found,
  frequency_from_sound,
}

one_band :
    (band : ℕ)
    → ltb sub_bands band ≡ false
    → (band == 0) ≡ false
    → band_of (sub_band_channels band) ≡ (pos 0, band)
one_band zero low one = ground (arith, one)
one_band (suc n) low one =
    let e : suc n ≡ n + 1 = omega arith in rw e (band_found n (ground (arith, low)))

every_channel : (plan : Plan) → only_frequency plan all_channels ≡ 0
unfolding only_frequency all_channels enabled
every_channel plan = refl

module _ (a : SettingsApi) (capabilities : ℕ) (region : ℤ × ℕ) where
  -- After an operation that succeeds the region has a plan, and the mask is one of these.
  Puts : (List ℕ → Type 0) → ℤ × Credentials a → Type 0
  Puts P p =
      (p.0 ≡ pos 0
        → (((channel_plan capabilities region).0 ≡ pos 0)
            × ((mask : List ℕ) × (P mask × (read_mask a p.1 ≡ (pos 0, mask, p.1))))))

  failed-Puts :
      (P : List ℕ → Type 0) (rc : ℤ) (s : Credentials a) → is_zero rc ≡ false → Puts P (rc, s)
  unfolding Puts
  failed-Puts P rc s e ok = ground (arith, e, ok)

  either-Puts :
      (P : List ℕ → Type 0) (b : Bool) (p q : ℤ × Credentials a)
      → (b ≡ true → Puts P p)
      → (b ≡ false → Puts P q)
      → Puts P (if b then p else q)
  either-Puts P true p q f g = f refl
  either-Puts P false p q f g = g refl

  Holds-Puts :
      (P : List ℕ → Type 0) (mask : Option (List ℕ)) (p : ℤ × Credentials a)
      → (channel_plan capabilities region).0 ≡ pos 0
      → P (mask_of mask)
      → Holds a mask p
      → Puts P p
  unfolding Puts Holds
  Holds-Puts P mask p planned fits h ok = (planned, (mask_of mask, (fits, h ok)))

  set_sub_band-Puts :
      (band : ℕ) (s : Credentials a)
      → Puts
          (λ mask. band_of mask ≡ (pos 0, band))
          (set_sub_band a capabilities region false band s)
  unfolding set_sub_band check_thread
  set_sub_band-Puts band s =
      let (rc, _) = channel_plan capabilities region in
      let P : List ℕ → Type 0 = λ mask. band_of mask ≡ (pos 0, band) in
      either-Puts P (not (is_zero rc)) (rc, s) _ (λ bad. failed-Puts P rc s (ground (arith, bad)))
        (λ good.
          let planned : rc ≡ pos 0 = (is_zero_iff rc).0 (ground (arith, good)) in
          either-Puts P (ltb sub_bands band) (fail Err.invalid, s) _
            (λ _. failed-Puts P (fail Err.invalid) s refl)
            (λ low.
              either-Puts P (band == 0) (set_channel_mask a none s)
                (store_mask a (sub_band_channels band) s)
                (λ all.
                  Holds-Puts P none (set_channel_mask a none s) planned
                    (rw ((==_iff band 0).0 all) all_is_band) (set_channel_mask-Holds a none s))
                (λ one.
                  Holds-Puts P (some (sub_band_channels band))
                    (store_mask a (sub_band_channels band) s) planned (one_band band low one)
                    (store_mask-Holds a (sub_band_channels band) s))))

  read_band :
      (band : ℕ) (mask : List ℕ) (t : Credentials a)
      → (channel_plan capabilities region).0 ≡ pos 0
      → read_mask a t ≡ (pos 0, mask, t)
      → band_of mask ≡ (pos 0, band)
      → get_sub_band a capabilities region false true t ≡ (pos 0, band, t)
  unfolding get_sub_band check_thread
  read_band band mask t planned held fits = rw (planned, held, fits) refl

  -- When a sub-band is set (0 is every channel), then the region has a fixed plan, and reading the
  -- sub-band gives the same number and changes nothing.
  pub set_sub_band-get_sub_band :
      (band : ℕ) (s : Credentials a)
      → (set_sub_band a capabilities region false band s).0 ≡ pos 0
      → let t = (set_sub_band a capabilities region false band s).1 in
        ((channel_plan capabilities region).0 ≡ pos 0)
        × (get_sub_band a capabilities region false true t ≡ (pos 0, band, t))
  unfolding Puts
  set_sub_band-get_sub_band band s ok =
      let (planned, (mask, (fits, held))) = set_sub_band-Puts band s ok in
      (planned, read_band band mask _ planned held fits)

  -- The mask of which only the channel at this frequency is enabled.
  Only : ℕ → List ℕ → Type 0
  Only f mask = only_frequency (channel_plan capabilities region).1 mask ≡ f

  set_found-Puts :
      (f : ℕ) (r : ℤ) (s : Credentials a)
      → (channel_plan capabilities region).0 ≡ pos 0
      → frequency_channel (channel_plan capabilities region).1 f ≡ r
      → Puts (Only f) (set_found a r s)
  unfolding set_found frequency_channel Only
  set_found-Puts f (pos i) s planned e =
      let plan = (channel_plan capabilities region).1 in
      let (below, same) = frequency_from_sound 72 0 plan f i e in
      Holds-Puts (Only f) (some (put_channel i no_mask)) _ planned
        (only_found plan i (ground (arith, below)) ∙ same)
        (set_channel_mask-Holds a (some (put_channel i no_mask)) s)
  set_found-Puts f (negsuc i) s planned e = failed-Puts (Only f) (negsuc i) s refl

  Only-every : (f : ℕ) → (f == 0) ≡ true → Only f all_channels
  unfolding Only
  Only-every f all = every_channel (channel_plan capabilities region).1 ∙ sym ((==_iff f 0).0 all)

  set_fixed_channel-Puts :
      (f : ℕ) (s : Credentials a)
      → Puts (Only f) (set_fixed_channel a capabilities region false f s)
  unfolding set_fixed_channel check_thread
  set_fixed_channel-Puts f s =
      let (rc, plan) = channel_plan capabilities region in
      either-Puts (Only f) (not (is_zero rc)) (rc, s) _
        (λ bad. failed-Puts (Only f) rc s (ground (arith, bad)))
        (λ good.
          let planned : rc ≡ pos 0 = (is_zero_iff rc).0 (ground (arith, good)) in
          either-Puts (Only f) (f == 0) (set_channel_mask a none s)
            (set_found a (frequency_channel plan f) s)
            (λ all.
              Holds-Puts (Only f) none (set_channel_mask a none s) planned (Only-every f all)
                (set_channel_mask-Holds a none s))
            (λ _. set_found-Puts f (frequency_channel plan f) s planned refl))

  read_only :
      (f : ℕ) (mask : List ℕ) (t : Credentials a)
      → (channel_plan capabilities region).0 ≡ pos 0
      → read_mask a t ≡ (pos 0, mask, t)
      → only_frequency (channel_plan capabilities region).1 mask ≡ f
      → get_fixed_channel a capabilities region false true t ≡ (pos 0, f, t)
  unfolding get_fixed_channel check_thread
  read_only f mask t planned held fits = rw (planned, held, fits) refl

  -- When a fixed channel is set by its frequency (0 is every channel), then the region has a fixed
  -- plan, and reading the fixed channel gives the same frequency and changes nothing.
  pub set_fixed_channel-get_fixed_channel :
      (f : ℕ) (s : Credentials a)
      → (set_fixed_channel a capabilities region false f s).0 ≡ pos 0
      → let t = (set_fixed_channel a capabilities region false f s).1 in
        ((channel_plan capabilities region).0 ≡ pos 0)
        × (get_fixed_channel a capabilities region false true t ≡ (pos 0, f, t))
  unfolding Puts Only
  set_fixed_channel-get_fixed_channel f s ok =
      let (planned, (mask, (fits, held))) = set_fixed_channel-Puts f s ok in
      (planned, read_only f mask _ planned held fits)
