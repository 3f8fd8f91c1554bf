-- ===== src/Storage/Names.antt =====
-- Which names the storage service builds, and when two of them are the same.
use rzi.Prelude.{
  ℕ, ◌≡◌, ◌≢◌, ◌∙◌, refl, sym, true, false, some, List, [], ◌∷◌, ◌++◌, pos, append_assoc, length,
  length-append, leb, ◌+◌, ◌<◌, arith,
}
use rzi.Storage.{slash, name_max, has_double_slash, ends_in_slash, valid_component, build_name}

-- A text without a slash.
abbrev pub HasNoSlash : List ℕ → Type 0
HasNoSlash [] = Unit
HasNoSlash (c ∷ cs) = (c ≢ slash) × HasNoSlash cs

split_unique :
    (a b x y : List ℕ)
    → HasNoSlash a
    → HasNoSlash b
    → a ++ (slash ∷ x) ≡ b ++ (slash ∷ y)
    → (a ≡ b) × (x ≡ y)
split_unique [] [] x y ha hb e = (refl, cc)
split_unique [] (d ∷ b) x y ha hb e = absurd (hb.0 (ground (arith, e)))
split_unique (c ∷ a) [] x y ha hb e = absurd (ha.0 (ground (arith, e)))
split_unique (c ∷ a) (d ∷ b) x y ha hb e =
    ground (arith, e, split_unique a b x y ha.1 hb.1 (ground (arith, e)))

build_name-value :
    (a x : List ℕ) (n : List ℕ) → build_name (some a) (some x) ≡ (pos 0, n) → n ≡ a ++ (slash ∷ x)
unfolding build_name
build_name-value a x n h = ground (arith, h)

-- Two pairs of a namespace without a slash and a key that give the same name are the same pair.
pub build_name-injective :
    (a b x y n : List ℕ)
    → HasNoSlash a
    → HasNoSlash b
    → build_name (some a) (some x) ≡ (pos 0, n)
    → build_name (some b) (some y) ≡ (pos 0, n)
    → (a ≡ b) × (x ≡ y)
build_name-injective a b x y n ha hb p q =
    split_unique a b x y ha hb (sym (build_name-value a x n p) ∙ build_name-value b y n q)

ends_in_slash-append :
    (a : List ℕ) (c : ℕ) (b : List ℕ) → ends_in_slash (a ++ (c ∷ b)) ≡ ends_in_slash (c ∷ b)
ends_in_slash-append [] c b = refl
ends_in_slash-append (x ∷ []) c b = refl
ends_in_slash-append (x ∷ y ∷ a) c b = ends_in_slash-append (y ∷ a) c b

double_slash-join :
    (x : ℕ) (a : List ℕ) (c : ℕ) (b : List ℕ)
    → ends_in_slash (x ∷ a) ≡ false
    → c ≢ slash
    → has_double_slash (x ∷ a) ≡ false
    → has_double_slash (c ∷ b) ≡ false
    → has_double_slash ((x ∷ a) ++ (slash ∷ c ∷ b)) ≡ false
double_slash-join x [] c b e ne h k = ground (arith, e, ne, k)
double_slash-join x (y ∷ a) c b e ne h k = ground (arith, h, double_slash-join y a c b e ne)

-- Two valid components joined by a slash are a valid component.
pub valid_component-join :
    (a b : List ℕ)
    → valid_component (some a) ≡ true
    → valid_component (some b) ≡ true
    → valid_component (some (a ++ (slash ∷ b))) ≡ true
unfolding valid_component
valid_component-join [] b p q = cc
valid_component-join (x ∷ a) [] p q = cc
valid_component-join (x ∷ a) (c ∷ b) p q =
    ground (arith, p, q, ends_in_slash-append (x ∷ a) slash (c ∷ b), double_slash-join x a c b)

-- Namespaces with slashes are not apart: for valid components a, b and c that are not too long
-- together, both the key c of the namespace "a/b" and the key "b/c" of the namespace "a" are
-- accepted, and are stored under the one name "a/b/c".
pub build_name_collides :
    (a b c : List ℕ)
    → valid_component (some a) ≡ true
    → valid_component (some b) ≡ true
    → valid_component (some c) ≡ true
    → length a + (length b + length c) + 2 < name_max
    → let name = a ++ (slash ∷ (b ++ (slash ∷ c))) in
      (build_name (some (a ++ (slash ∷ b))) (some c) ≡ (pos 0, name))
      × (build_name (some a) (some (b ++ (slash ∷ c))) ≡ (pos 0, name))
unfolding build_name
build_name_collides a b c p q r short =
    let left = valid_component-join a b p q in
    let right = valid_component-join b c q r in
    let one = append_assoc a (slash ∷ b) (slash ∷ c) in
    let size_bc = length-append b (slash ∷ c) in
    let size = length-append a (slash ∷ (b ++ (slash ∷ c))) in
    let fits : leb name_max (length (a ++ (slash ∷ (b ++ (slash ∷ c))))) ≡ false =
      ground (arith, size, size_bc, short) in
    (rw (left, r, one, fits) refl, rw (p, right, fits) refl)
