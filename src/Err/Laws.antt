-- ===== src/Err/Laws.antt =====
-- The catalog is closed, and the translation into it is total and stable.
use rzi.Prelude.{
  zero, ℕ, suc, ◌-◌, ◌≡◌, refl, sym, ap, ◌≢◌, ◌⊎◌, inl, inr, ◌↔◌, ◌<◌, ◌∙◌, false, none, some, List,
  ℤ, pos, negsuc, arith, Option-cases, is_negative,
}
use rzi.Err.{
  Err, err_value, fail, find_err, err_name, catalog_name, Errno, errno_err, err_from_errno,
}

-- The value of a code leads back to the code.
pub find_err-err_value : (x : Err) → find_err (err_value x) ≡ some x
unfolding find_err
find_err-err_value Err.invalid = refl
find_err-err_value _ = refl

err_value_pos : (x : Err) → err_value x ≡ suc (err_value x - 1)
err_value_pos Err.invalid = refl
err_value_pos _ = refl

-- A value that the catalog knows is the value of the code that it finds.
find_err_sound : (n : ℕ) (x : Err) → find_err n ≡ some x → n ≡ err_value x
unfolding find_err
find_err_sound n x h = ground arith

-- What a public function may return: success, or the negation of a code of the catalog.
abbrev pub IsPublic : ℤ → Type 0
IsPublic r = (r ≡ pos 0) ⊎ ((x : Err) × (r ≡ fail x))

catalog_name_of_code : (x : Err) → catalog_name (err_value x) ≡ some (err_name x)
unfolding catalog_name find_err err_name
catalog_name_of_code Err.invalid = refl
catalog_name_of_code _ = refl

catalog_name_sound : (n : ℕ) (s : List ℕ) → catalog_name (suc n) ≡ some s → IsPublic (negsuc n)
unfolding catalog_name
catalog_name_sound n s h = elim (Option-cases (find_err (suc n))) [
  | inl e ↦ ground (arith, e)
  | inr (x, e) ↦ inr (x, ap (λ (k : ℕ). negsuc k) (ground (arith, find_err_sound (suc n) x e)))
]

-- Every result of rzi_err_from_errno is 0 or a negated code of the catalog, whatever the
-- driver returned.
pub err_from_errno-IsPublic : (e : Errno) (rc : ℤ) → IsPublic (err_from_errno e rc)
unfolding err_from_errno
err_from_errno-IsPublic e (pos n) = inl refl
err_from_errno-IsPublic e (negsuc n) = elim (Option-cases (catalog_name (suc n))) [
  | inl h ↦ rw (h, err_from_errno) (inr (errno_err e (suc n), refl))
  | inr (s, h) ↦ rw (h, err_from_errno) (catalog_name_sound n s h)
]

-- A negated code of the catalog passes through unchanged.
pub err_from_errno-fail : (e : Errno) (x : Err) → err_from_errno e (fail x) ≡ fail x
unfolding err_from_errno
err_from_errno-fail e x = ground (arith, err_value_pos x, catalog_name_of_code x)

-- Translating twice is translating once, so a layer may translate what a lower one has.
pub err_from_errno_idem :
    (e : Errno) (rc : ℤ) → err_from_errno e (err_from_errno e rc) ≡ err_from_errno e rc
err_from_errno_idem e rc = elim (err_from_errno-IsPublic e rc) [
  | inl h ↦ rw h (zero_stays e)
  | inr (x, h) ↦ rw h (err_from_errno-fail e x)
]
  where
    zero_stays : (f : Errno) → err_from_errno f (pos 0) ≡ pos 0
    zero_stays f = unfold err_from_errno in refl

-- The result is 0 exactly when the driver's value is not negative.
pub err_from_errno-zero_iff :
    (e : Errno) (rc : ℤ) → (err_from_errno e rc ≡ pos 0) ↔ (is_negative rc ≡ false)
unfolding err_from_errno
err_from_errno-zero_iff e rc = ground arith

errno_err_never : (e : Errno) (n : ℕ) → (errno_err e n ≢ Err.isr) × (errno_err e n ≢ Err.not_joined)
unfolding errno_err
errno_err_never e n = ground arith

catalog_name_below : (n : ℕ) → suc n < 1000 → catalog_name (suc n) ≡ none
unfolding catalog_name find_err
catalog_name_below n h = ground arith

fail_injective : (x y : Err) → fail x ≡ fail y → x ≡ y
fail_injective x y h = cc (
    sym (find_err-err_value x)
    ∙ ap find_err {x = err_value x} {y = err_value y}
        (ground (arith, err_value_pos x, err_value_pos y))
    ∙ find_err-err_value y)

-- An errno below the catalog is translated by the switch, and never to the codes for an ISR
-- caller and for a missing session, which only the services give.
pub err_from_errno-driver :
    (e : Errno) (n : ℕ)
    → suc n < 1000
    → (err_from_errno e (negsuc n) ≡ fail (errno_err e (suc n)))
      × (err_from_errno e (negsuc n) ≢ fail Err.isr)
      × (err_from_errno e (negsuc n) ≢ fail Err.not_joined)
err_from_errno-driver e n h = (
  switched,
  λ p. (errno_err_never e (suc n)).0 (fail_injective _ _ (sym switched ∙ p)),
  λ p. (errno_err_never e (suc n)).1 (fail_injective _ _ (sym switched ∙ p)),
)
  where
    switched : err_from_errno e (negsuc n) ≡ fail (errno_err e (suc n))
    switched = unfold err_from_errno in rw (catalog_name_below n h, err_from_errno)

-- A driver's result that is 0 or negative is 0 when its translation is.
pub translated-zero :
    (e : Errno) (rc : ℤ) → ((n : ℕ) → rc ≢ pos (suc n)) → err_from_errno e rc ≡ pos 0 → rc ≡ pos 0
translated-zero e (pos zero) np h = refl
translated-zero e (pos (suc n)) np h = absurd (np n refl)
translated-zero e (negsuc n) np h = cc ((err_from_errno-zero_iff e (negsuc n)).0 h)
