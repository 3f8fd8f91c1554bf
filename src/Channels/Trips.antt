-- ===== src/Channels/Trips.antt =====
-- What is read of the channels after they were set.
use rzi.Prelude.{
  ℕ, zero, suc, codes, ◌≡◌, inl, inr, ◌+◌, ◌<◌, refl, sym, ◌∙◌, ap, Bool, true, false, not, ◌&&◌,
  List, ℤ, pos, Option, none, some, eq_bytes, eq_bytes_iff, ◌==◌, ==_iff, if◌then◌else◌, is_zero,
  Bool-cases, arith,
}
use rzi.Err.{Err, fail}
use rzi.Credentials.{
  SettingsApi, Store, Credentials, ensure_loaded, guarded_write, channel_mask_valid, mask_bytes,
}
use rzi.Credentials.Policy.{get_channel_mask, set_channel_mask}
use rzi.Credentials.Stored.{guarded_write-stores, ensure_loaded-loaded, ensure_loaded_again}
use rzi.Channels.{
  Plan, no_mask, put_channel, all_channels, sub_band_channels, band_of, find_band,
  channel_frequency, frequency_from, enabled, only_frequency, read_mask, store_mask,
}

-- A test of the numbers below `n`.
all_below : ℕ → (ℕ → Bool) → Bool
all_below zero p = true
all_below (suc n) p = p n && all_below n p

all_below_sound : (n : ℕ) (p : ℕ → Bool) (i : ℕ) → all_below n p ≡ true → i < n → p i ≡ true
unfolding all_below
all_below_sound zero p i all below = ground (arith, below)
all_below_sound (suc n) p i all below = elim (Bool-cases (i == n)) [
  | inl e ↦ rw ((==_iff i n).0 e) (ground (arith, all))
  | inr e ↦ all_below_sound n p i (ground (arith, all)) (ground (arith, below, e))
]

is_band : ℕ → Bool
is_band i = let (rc, band) = band_of (sub_band_channels (i + 1)) in is_zero rc && (band == i + 1)

bands_found : all_below 8 is_band ≡ true
unfolding all_below is_band band_of sub_band_channels all_channels find_band
bands_found = refl

is_only : ℕ → Bool
is_only channel =
    let (count, found) = enabled 72 0 (put_channel channel no_mask) (0, 0) in
    (count == 1) && (found == channel)

channels_found : all_below 72 is_only ≡ true
unfolding all_below is_only enabled
channels_found = refl

pub band_found : (band : ℕ) → band < 8 → band_of (sub_band_channels (band + 1)) ≡ (pos 0, band + 1)
unfolding is_band
band_found band below =
    let found = all_below_sound 8 is_band band bands_found below in
    pair_of (band_of (sub_band_channels (band + 1))) (band + 1) found
  where
    pair_of : (r : ℤ × ℕ) (n : ℕ) → (is_zero r.0 && (r.1 == n)) ≡ true → r ≡ (pos 0, n)
    pair_of (rc, m) n e = ground (arith, e)

pub all_is_band : band_of all_channels ≡ (pos 0, 0)
unfolding band_of all_channels
all_is_band = refl

-- The search over channels ends at one with the frequency.
pub frequency_from_sound :
    (n channel : ℕ) (plan : Plan) (f : ℕ) (i : ℕ)
    → frequency_from n channel plan f ≡ pos i
    → (i < channel + n) × (channel_frequency plan i ≡ f)
unfolding frequency_from
frequency_from_sound zero channel plan f i e = ground (arith, e)
frequency_from_sound (suc n) channel plan f i e =
    elim (Bool-cases (channel_frequency plan channel == f)) [
      | inl hit ↦
          let same : channel ≡ i = ground (arith, e, hit) in
          rw (sym same) (omega arith, (==_iff (channel_frequency plan channel) f).0 hit)
      | inr miss ↦
          let rest = frequency_from_sound n (channel + 1) plan f i (ground (arith, e, miss)) in
          (ground (arith, rest.0), rest.1)
    ]

pub only_found :
    (plan : Plan) (i : ℕ)
    → i < 72
    → only_frequency plan (put_channel i no_mask) ≡ channel_frequency plan i
unfolding only_frequency is_only
only_found plan i below =
    of_count (enabled 72 0 (put_channel i no_mask) (0, 0))
      (all_below_sound 72 is_only i channels_found below)
  where
    of_count :
        (r : ℕ × ℕ)
        → ((r.0 == 1) && (r.1 == i)) ≡ true
        → (if r.0 == 1 then channel_frequency plan r.1 else 0) ≡ channel_frequency plan i
    of_count (n, m) e = let same : m ≡ i = ground (arith, e) in rw same (ground (arith, e))

abbrev pub mask_of : Option (List ℕ) → List ℕ
mask_of none = all_channels
mask_of (some mask) = mask

swap :
    (b : Bool) (mask : List ℕ)
    → (if not b then all_channels else mask) ≡ (if b then mask else all_channels)
swap true mask = refl
swap false mask = refl

module _ (a : SettingsApi) where
  read_held :
      (s : Credentials a)
      → s.store.loaded ≡ true
      → read_mask a s
        ≡ (pos 0, (if s.store.channel_mask_set then s.store.channel_mask else all_channels), s)
  unfolding read_mask get_channel_mask
  read_held s e =
      ap read_of (ensure_loaded_again a s e)
      ∙ ap (λ m. (pos 0, m, s)) (swap s.store.channel_mask_set s.store.channel_mask)
    where
      read_of : ℤ × Credentials a → ℤ × List ℕ × Credentials a
      read_of (rc, t) = (
        rc,
        if is_zero rc && not t.store.channel_mask_set then all_channels else t.store.channel_mask,
        t,
      )

  -- The mask in force after a write that succeeds.
  unfoldable pub Holds : Option (List ℕ) → ℤ × Credentials a → Type 0
  Holds mask (rc, t) = (rc ≡ pos 0 → read_mask a t ≡ (pos 0, mask_of mask, t))

  -- The mask that a store stands for.
  abbrev in_force : Store → List ℕ
  in_force st = if st.channel_mask_set then st.channel_mask else all_channels

  guarded_write-Holds :
      (mask : Option (List ℕ)) (key v : List ℕ) (update : Store → Store) (s : Credentials a)
      → ((st : Store) → (update st).loaded ≡ st.loaded)
      → ((st : Store) → in_force (update st) ≡ mask_of mask)
      → Holds mask (guarded_write a key v update s)
  unfolding Holds
  guarded_write-Holds mask key v update s keeps selects ok =
      let (ready, _, _, st) = guarded_write-stores a key v update s ok in
      let t = (ensure_loaded a s).1 in
      let c = (a.setting_write key v t.settings).1 in
      rw (st, sym (selects t.store))
        (read_held (record { store = update t.store; settings = c })
          (keeps t.store ∙ ensure_loaded-loaded a s ready))

  pub failed-Holds :
      (mask : Option (List ℕ)) (rc : ℤ) (s : Credentials a)
      → is_zero rc ≡ false
      → Holds mask (rc, s)
  unfolding Holds
  failed-Holds mask rc s e ok = ground (arith, e, ok)

  pub either-Holds :
      (mask : Option (List ℕ)) (b : Bool) (p q : ℤ × Credentials a)
      → Holds mask p
      → (b ≡ false → Holds mask q)
      → Holds mask (if b then p else q)
  either-Holds mask true p q f g = f
  either-Holds mask false p q f g = g refl

  pub set_channel_mask-Holds :
      (mask : Option (List ℕ)) (s : Credentials a) → Holds mask (set_channel_mask a mask s)
  unfolding set_channel_mask
  set_channel_mask-Holds none s = guarded_write-Holds none _ _ _ s (λ st. refl) (λ st. refl)
  set_channel_mask-Holds (some mask) s =
      either-Holds (some mask) (not (channel_mask_valid mask)) (fail Err.invalid, s)
        (guarded_write a (codes "chmask") (mask_bytes mask)
          (λ st. record st { channel_mask = mask; channel_mask_set = true }) s)
        (failed-Holds (some mask) _ s refl)
        (λ _. guarded_write-Holds (some mask) _ _ _ s (λ st. refl) (λ st. refl))

  same-Holds :
      (mask : List ℕ) (p : ℤ × Credentials a)
      → mask ≡ all_channels
      → Holds none p
      → Holds (some mask) p
  unfolding Holds
  same-Holds mask p e h ok = rw e (h ok)

  pub store_mask-Holds :
      (mask : List ℕ) (s : Credentials a) → Holds (some mask) (store_mask a mask s)
  unfolding store_mask
  store_mask-Holds mask s = elim (Bool-cases (eq_bytes mask all_channels)) [
    | inl e ↦ rw e (
        same-Holds mask (set_channel_mask a none s) ((eq_bytes_iff mask all_channels).0 e)
          (set_channel_mask-Holds none s))
    | inr e ↦ rw e (set_channel_mask-Holds (some mask) s)
  ]
