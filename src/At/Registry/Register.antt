-- ===== src/At/Registry/Register.antt =====
-- Registration: all or nothing, exactly for valid new names, and never past the table.

use rzi.Prelude.{
  ℕ, ◌+◌, ◌^◌, ◌≤◌, ◌<◌, ◌≡◌, ◌↔◌, inl, inr, refl, ap, true, false, ◌||◌, List, [], ◌∷◌, ◌++◌, pos,
  Option, none, some, length, take, eq_bytes, if◌then◌else◌, is_zero, is_zero_iff, is_null,
  append_assoc, append-nil, length-append, length-take, arith, Bool-cases,
}
use rzi.At.{Command, Env}
use rzi.At.Registry.{Registry, valid_name, same_name, has_name, check_from, register}

-- Every command can be called: its name is valid and it has a handler.
abbrev pub AllValid : List Command → Type 0
AllValid [] = Unit
AllValid (c ∷ cs) = (valid_name c.name ≡ true) × (is_null c.handler ≡ false) × AllValid cs

-- No two commands have the same name.
abbrev pub Distinct : List Command → Type 0
Distinct [] = Unit
Distinct (c ∷ cs) = (has_name c.name cs ≡ false) × Distinct cs

pub record IsWellFormed (env : Env) (r : Registry) : Type 0 where
  pub valid : AllValid r.registered
  pub distinct : Distinct r.registered
  pub fits : length r.registered ≤ env.max_commands

eq_bytes_sym : (as' bs : List ℕ) → eq_bytes as' bs ≡ eq_bytes bs as'
eq_bytes_sym [] [] = refl
eq_bytes_sym [] (b ∷ bs) = refl
eq_bytes_sym (a ∷ as') [] = refl
eq_bytes_sym (a ∷ as') (b ∷ bs) = ground (arith, eq_bytes_sym as' bs)

pub same_name_sym : (a b : Option (List ℕ)) → same_name a b ≡ same_name b a
same_name_sym none none = refl
same_name_sym none (some b) = refl
same_name_sym (some a) none = refl
same_name_sym (some a) (some b) = eq_bytes_sym a b

pub has_name-append :
    (n : Option (List ℕ)) (xs ys : List Command)
    → has_name n (xs ++ ys) ≡ (has_name n xs || has_name n ys)
unfolding has_name
has_name-append n [] ys = refl
has_name-append n (x ∷ xs) ys = ground (arith, has_name-append n xs ys)

AllValid-append : (xs ys : List Command) → AllValid xs → AllValid ys → AllValid (xs ++ ys)
AllValid-append [] ys hx hy = hy
AllValid-append (x ∷ xs) ys hx hy = (hx.0, hx.1, AllValid-append xs ys hx.2 hy)

Distinct-snoc :
    (xs : List Command) (c : Command)
    → Distinct xs
    → has_name c.name xs ≡ false
    → Distinct (xs ++ (c ∷ []))
unfolding has_name
Distinct-snoc [] c d h = (refl, tt)
Distinct-snoc (x ∷ xs) c d h = (
  ground (arith, d.0, h, has_name-append x.name xs (c ∷ []), same_name_sym x.name c.name),
  Distinct-snoc xs c d.1 (ground (arith, h)),
)

pub Distinct-middle :
    (xs : List Command) (c : Command) (ys : List Command)
    → Distinct (xs ++ (c ∷ ys))
    → has_name c.name xs ≡ false
unfolding has_name
Distinct-middle [] c ys d = refl
Distinct-middle (x ∷ xs) c ys d = ground (
  arith,
  d.0,
  has_name-append x.name xs (c ∷ ys),
  same_name_sym x.name c.name,
  Distinct-middle xs c ys d.1,
)

snoc_append :
    (xs : List Command) (c : Command) (cs : List Command) → (xs ++ (c ∷ [])) ++ cs ≡ xs ++ (c ∷ cs)
snoc_append xs c cs = append_assoc xs (c ∷ []) cs

-- The checks pass only for commands that are valid and bring new names.
check_from_sound :
    (registered earlier cs : List Command)
    → check_from registered earlier cs ≡ pos 0
    → Distinct (registered ++ earlier)
    → AllValid cs × Distinct ((registered ++ earlier) ++ cs)
unfolding check_from
check_from_sound registered earlier [] h d = (tt, rw append-nil d)
check_from_sound registered earlier (c ∷ cs) h d =
    let checks : (valid_name c.name ≡ true)
        × (is_null c.handler ≡ false)
        × (has_name c.name (registered ++ earlier) ≡ false)
        × (check_from registered (earlier ++ (c ∷ [])) cs ≡ pos 0) =
      ground (arith, h, has_name-append c.name registered earlier) in
    let later : AllValid cs × Distinct ((registered ++ (earlier ++ (c ∷ []))) ++ cs) =
      check_from_sound registered (earlier ++ (c ∷ [])) cs checks.3
        (rw (← append_assoc) (Distinct-snoc (registered ++ earlier) c d checks.2)) in
    (
      (checks.0, checks.1, later.0),
      rw (← snoc_append (registered ++ earlier) c cs, append_assoc registered earlier (c ∷ []))
          later.1,
    )

check_from_complete :
    (registered earlier cs : List Command)
    → AllValid cs
    → Distinct ((registered ++ earlier) ++ cs)
    → check_from registered earlier cs ≡ pos 0
unfolding check_from
check_from_complete registered earlier [] v d = refl
check_from_complete registered earlier (c ∷ cs) v d =
    let rest : check_from registered (earlier ++ (c ∷ [])) cs ≡ pos 0 =
      check_from_complete registered (earlier ++ (c ∷ [])) cs v.2 (
        rw (← append_assoc registered earlier (c ∷ []), snoc_append (registered ++ earlier) c cs)
          d) in
    ground (
      arith,
      rest,
      Distinct-middle (registered ++ earlier) c cs d,
      has_name-append c.name registered earlier,
    )

take-length : (l : List Command) → take (length l) l ≡ l
take-length [] = refl
take-length (x ∷ xs) = ap (λ (k : List Command). x ∷ k) (take-length xs)

-- With distinct names registered so far and counts that add up without wrapping, a call with an
-- array succeeds exactly when the registry is open, the new count fits, every new command is
-- valid, and the names of old and new commands are all different; then it appends all of the
-- commands, and otherwise it leaves the registry as it was.
pub register_iff :
    (env : Env) (r : Registry) (l : List Command)
    → Distinct r.registered
    → length r.registered + length l < 2 ^ 32
    → let (rc, r') = register env (some l) (length l) r in
      ((rc ≡ pos 0) ↔ (
        (r.sealed ≡ false)
        × (length r.registered + length l ≤ env.max_commands)
        × AllValid l
        × Distinct (r.registered ++ l)))
      × (r' ≡ (if is_zero rc then record r { registered = r.registered ++ l } else r))
unfolding register
register_iff env r l d small = rw (take-length l) (
  (
    λ h.
        let checked : (r.sealed ≡ false)
            × (length r.registered + length l ≤ env.max_commands)
            × (check_from r.registered [] l ≡ pos 0) =
          ground (arith, h) in
        let sound : AllValid l × Distinct ((r.registered ++ []) ++ l) =
          check_from_sound r.registered [] l checked.2 (rw append-nil d) in
        (checked.0, checked.1, sound.0, rw (← append-nil r.registered) sound.1),
    λ h.
        let done : check_from r.registered [] l ≡ pos 0 =
          check_from_complete r.registered [] l h.2 (rw append-nil h.3) in
        ground (arith, h, done),
  ),
  ground arith,
)

-- Whatever is passed, the registry stays well formed, as long as the two counts add up without
-- wrapping.
pub register-IsWellFormed :
    (env : Env) (commands : Option (List Command)) (count : ℕ) (r : Registry)
    → IsWellFormed env r
    → length r.registered + count < 2 ^ 32
    → IsWellFormed env (register env commands count r).1
unfolding register
register-IsWellFormed env none count r w small =
    rw (append-nil r.registered) (ground (arith, w.fits))
register-IsWellFormed env (some l) count r w small =
    elim (Bool-cases (is_zero (check_from r.registered [] (take count l)))) [
      | inl passed ↦
          let sound : AllValid (take count l) × Distinct ((r.registered ++ []) ++ take count l) =
            check_from_sound r.registered [] (take count l) ((is_zero_iff _).0 passed)
              (rw append-nil w.distinct) in
          ground (
            arith,
            passed,
            w.fits,
            w.valid,
            w.distinct,
            AllValid-append r.registered (take count l) w.valid sound.0,
            rw append-nil at sound.1,
            length-append r.registered (take count l),
            length-take count l,
          )
      | inr failed ↦ ground (arith, failed, w.valid, w.distinct, w.fits)
    ]
