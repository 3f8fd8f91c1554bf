-- ===== src/Credentials/Bounds.antt =====
-- Which masks and policies are ever in force.
use rzi.Prelude.{
  ℕ, ◌≡◌, ◌⊎◌, inl, inr, refl, Bool, true, false, List, [], ◌∷◌, ℤ, Option, none, some, Bool-cases,
  arith, codes, if◌then◌else◌,
}
use rzi.Credentials.{
  SettingsApi, Store, Credentials, empty, ensure_loaded, guarded_write, clear_settings, candidate,
  read_all, loads, set_join_active, channel_mask_valid,
}
use rzi.Credentials.Access.{
  Field, dev_eui, app_eui, app_key, gen_app_key, nwk_skey, app_skey, set_field, field_key, le32,
  njm_wire, set_bytes, set_dev_addr, set_activation,
}
use rzi.Credentials.Policy.{set_channel_mask, update_policy}
use rzi.Credentials.Guard.{
  Change, change_bytes, change_dev_addr, change_activation, change_mask, change_all, change,
}

-- A mask that counts as set enables a channel, and none outside the plan.
abbrev pub IsSafe : Store → Type 0
IsSafe s = (s.channel_mask_set ≡ false) ⊎ (channel_mask_valid s.channel_mask ≡ true)

-- The calls that change the store; every getter is a `load`.
pub data Call : Type 0 where
  load : Call
  apply : Bool → Change → Call
  policy : Bool → ℤ → ℤ → ℤ → Call
  join_active : Bool → Call

module _ (a : SettingsApi) where
  step : Call → Credentials a → Credentials a
  step load s = (ensure_loaded a s).1
  step (apply isr x) s = (change a isr x s).1
  step (policy isr auto interval attempts) s = (update_policy a isr auto interval attempts s).1
  step (join_active active) s = set_join_active a active s

  unfoldable pub run : List Call → Credentials a → Credentials a
  unfolding step
  run [] s = s
  run (x ∷ xs) s = run xs (step x s)

  candidate-IsSafe : (vs : List (List ℕ × Bool)) (active : Bool) → IsSafe (candidate vs active)
  unfolding candidate
  candidate-IsSafe vs active = ground arith

  -- A result of which the store is safe.
  Safe : ℤ × Credentials a → Type 0
  Safe (_, s) = IsSafe s.store

  result-Safe : (rc : ℤ) (s : Credentials a) → IsSafe s.store → Safe (rc, s)
  unfolding Safe
  result-Safe rc s safe = safe

  either-Safe :
      (b : Bool) (p q : ℤ × Credentials a)
      → Safe p
      → (b ≡ false → Safe q)
      → Safe (if b then p else q)
  either-Safe true p q f g = f
  either-Safe false p q f g = g refl

  ensure_loaded-Safe : (s : Credentials a) → IsSafe s.store → Safe (ensure_loaded a s)
  unfolding ensure_loaded
  ensure_loaded-Safe s safe =
      let (rc, vs, c) = read_all a loads s.settings in
      search (either-Safe, result-Safe, candidate-IsSafe vs s.store.join_active, safe)

  ensure_loaded-IsSafe : (s : Credentials a) → IsSafe s.store → IsSafe (ensure_loaded a s).1.store
  unfolding Safe
  ensure_loaded-IsSafe s safe = ensure_loaded-Safe s safe

  guarded_write-Safe :
      (key v : List ℕ) (update : Store → Store) (s : Credentials a)
      → ((st : Store) → IsSafe st → IsSafe (update st))
      → IsSafe s.store
      → Safe (guarded_write a key v update s)
  unfolding guarded_write
  guarded_write-Safe key v update s keeps safe =
      let (rc, t) = ensure_loaded a s in
      let held = ensure_loaded-IsSafe s safe in
      let (rc', c) = a.setting_write key v t.settings in
      search (either-Safe, result-Safe, keeps t.store held)

  set_field-IsSafe : (f : Field) (v : List ℕ) (st : Store) → IsSafe st → IsSafe (set_field f v st)
  set_field-IsSafe dev_eui v st safe = safe
  set_field-IsSafe app_eui v st safe = safe
  set_field-IsSafe app_key v st safe = safe
  set_field-IsSafe gen_app_key v st safe = safe
  set_field-IsSafe nwk_skey v st safe = safe
  set_field-IsSafe app_skey v st safe = safe

  set_channel_mask-Safe :
      (mask : Option (List ℕ)) (s : Credentials a)
      → IsSafe s.store
      → Safe (set_channel_mask a mask s)
  unfolding set_channel_mask
  set_channel_mask-Safe none s safe = guarded_write-Safe _ _ _ s (λ st _. inl refl) safe
  set_channel_mask-Safe (some mask) s safe = elim (Bool-cases (channel_mask_valid mask)) [
    | inl e ↦ rw e (guarded_write-Safe _ _ _ s (λ st _. inr e) safe)
    | inr e ↦ rw e (result-Safe _ s safe)
  ]

  empty-IsSafe : IsSafe empty
  empty-IsSafe = inl refl

  change-Safe :
      (isr : Bool) (x : Change) (s : Credentials a) → IsSafe s.store → Safe (change a isr x s)
  unfolding change set_bytes set_dev_addr set_activation clear_settings
  change-Safe isr (change_bytes f none) s safe = result-Safe _ s safe
  change-Safe isr (change_bytes f (some v)) s safe = search (
    either-Safe,
    result-Safe,
    guarded_write-Safe (field_key f) v (set_field f v) s (set_field-IsSafe f v) safe,
  )
  change-Safe isr (change_dev_addr n) s safe =
      let sets : Store → Store =
        λ st. record st { dev_addr = record { bytes = le32 n; is_set = true } } in
      search (
        either-Safe,
        result-Safe,
        guarded_write-Safe (codes "devaddr") (le32 n) sets s (λ st h. h) safe,
      )
  change-Safe isr (change_activation capabilities mode) s safe =
      let sets : Store → Store = λ st. record st { njm = mode } in
      search (
        either-Safe,
        result-Safe,
        guarded_write-Safe (codes "njm") (njm_wire mode ∷ []) sets s (λ st h. h) safe,
      )
  change-Safe isr (change_mask mask) s safe = set_channel_mask-Safe mask s safe
  change-Safe isr change_all s safe = search (either-Safe, result-Safe, empty-IsSafe)

  update_policy-Safe :
      (isr : Bool) (auto interval attempts : ℤ) (s : Credentials a)
      → IsSafe s.store
      → Safe (update_policy a isr auto interval attempts s)
  unfolding update_policy
  update_policy-Safe isr auto interval attempts s safe =
      let held = ensure_loaded-IsSafe s safe in search (either-Safe, result-Safe, held)

  step-IsSafe : (x : Call) (s : Credentials a) → IsSafe s.store → IsSafe (step x s).store
  unfolding step Safe set_join_active
  step-IsSafe load s safe = ensure_loaded-IsSafe s safe
  step-IsSafe (apply isr x) s safe = change-Safe isr x s safe
  step-IsSafe (policy isr auto interval attempts) s safe =
      update_policy-Safe isr auto interval attempts s safe
  step-IsSafe (join_active active) s safe = safe

  runs-IsSafe : (xs : List Call) (s : Credentials a) → IsSafe s.store → IsSafe (run xs s).store
  unfolding run
  runs-IsSafe [] s safe = safe
  runs-IsSafe (x ∷ xs) s safe = runs-IsSafe xs (step x s) (step-IsSafe x s safe)

  -- From the start, whatever the settings hold and after any sequence of calls, a channel mask that
  -- counts as set enables at least one channel and none outside the 72 of a fixed plan.
  pub run-IsSafe :
      (xs : List Call) (c : a.C)
      → let s = (run xs (record { store = empty; settings = c })).store in
        (s.channel_mask_set ≡ false) ⊎ (channel_mask_valid s.channel_mask ≡ true)
  run-IsSafe xs c = runs-IsSafe xs (record { store = empty; settings = c }) (inl refl)
