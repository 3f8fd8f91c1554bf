-- ===== src/Credentials/Guard.antt =====
-- What a join in progress keeps the setters from doing.
use rzi.Prelude.{
  ℕ, ◌≡◌, ◌⊎◌, inl, inr, refl, Bool, true, false, List, ℤ, Option, none, some, is_zero, Bool-cases,
  ◌∙◌, if◌then◌else◌,
}
use rzi.Lorawan.{Activation}
use rzi.Lorawan.Lifecycle.{check_thread}
use rzi.Credentials.{
  SettingsApi, Store, Credentials, ensure_loaded, guarded_write, clear_settings, candidate,
  read_all, loads,
}
use rzi.Credentials.Access.{Field, set_bytes, set_dev_addr, set_activation}
use rzi.Credentials.Policy.{set_channel_mask}

-- A call of a setter that a join in progress refuses.
pub data Change : Type 0 where
  change_bytes : Field → Option (List ℕ) → Change
  change_dev_addr : ℕ → Change
  change_activation : ℕ → Activation → Change
  change_mask : Option (List ℕ) → Change
  change_all : Change

module _ (a : SettingsApi) where
  unfoldable pub change : Bool → Change → Credentials a → ℤ × Credentials a
  change isr (change_bytes f v) s = set_bytes a isr f v s
  change isr (change_dev_addr n) s = set_dev_addr a isr n s
  change isr (change_activation capabilities mode) s = set_activation a isr capabilities mode s
  change isr (change_mask mask) s = set_channel_mask a mask s
  change isr change_all s = clear_settings a s

  pub ensure_loaded-join_active :
      (s : Credentials a) → (ensure_loaded a s).1.store.join_active ≡ s.store.join_active
  unfolding ensure_loaded candidate
  ensure_loaded-join_active s = elim (Bool-cases s.store.loaded) [
    | inl e ↦ rw e refl
    | inr e ↦ elim (Bool-cases (is_zero (read_all a loads s.settings).0)) [
      | inl z ↦ rw (e, z) refl
      | inr z ↦ rw (e, z) refl
    ]
  ]

  -- Refused, with nothing done but the loading.
  Refused : Credentials a → ℤ × Credentials a → Type 0
  Refused s (rc, t) = (is_zero rc ≡ false) × ((t ≡ s) ⊎ (t ≡ (ensure_loaded a s).1))

  guarded_write-Refused :
      (key v : List ℕ) (update : Store → Store) (s : Credentials a)
      → s.store.join_active ≡ true
      → Refused s (guarded_write a key v update s)
  unfolding guarded_write Refused
  guarded_write-Refused key v update s active =
      let locked = ensure_loaded-join_active s ∙ active in
      elim (Bool-cases (is_zero (ensure_loaded a s).0)) [
        | inl z ↦ rw (z, locked) (refl, inr refl)
        | inr z ↦ rw z (z, inr refl)
      ]

  unchanged-Refused :
      (s : Credentials a) (b : Bool) (rc : ℤ) (p : ℤ × Credentials a)
      → is_zero rc ≡ false
      → Refused s p
      → Refused s (if b then (rc, s) else p)
  unfolding Refused
  unchanged-Refused s true rc p e r = (e, inl refl)
  unchanged-Refused s false rc p e r = r

  -- While a join is active, a change of a credential, of the device address, of the activation or of
  -- the channel mask, and clearing the settings, give an error and change nothing, except that the
  -- stored credentials may be loaded first.
  pub change-refused :
      (isr : Bool) (x : Change) (s : Credentials a)
      → s.store.join_active ≡ true
      → let (rc, t) = change isr x s in
        (is_zero rc ≡ false) × ((t ≡ s) ⊎ (t ≡ (ensure_loaded a s).1))
  unfolding change Refused set_bytes set_dev_addr set_activation set_channel_mask clear_settings
      check_thread
  change-refused true (change_bytes f none) s active = (refl, inl refl)
  change-refused false (change_bytes f none) s active = (refl, inl refl)
  change-refused true (change_bytes f (some v)) s active = (refl, inl refl)
  change-refused false (change_bytes f (some v)) s active =
      unchanged-Refused s _ _ _ refl (guarded_write-Refused _ _ _ s active)
  change-refused true (change_dev_addr n) s active = (refl, inl refl)
  change-refused false (change_dev_addr n) s active = guarded_write-Refused _ _ _ s active
  change-refused true (change_activation capabilities mode) s active = (refl, inl refl)
  change-refused false (change_activation capabilities mode) s active =
      unchanged-Refused s _ _ _ refl (guarded_write-Refused _ _ _ s active)
  change-refused isr (change_mask none) s active = guarded_write-Refused _ _ _ s active
  change-refused isr (change_mask (some mask)) s active =
      unchanged-Refused s _ _ _ refl (guarded_write-Refused _ _ _ s active)
  change-refused isr change_all s active = rw active (refl, inl refl)
