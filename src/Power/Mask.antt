-- ===== src/Power/Mask.antt =====
-- The mask of `rzi_power_get_lock_mask` against the counts.
use Prim.Native.Nat.{bit_or}
use rzi.Prelude.{
  ℕ, zero, suc, ◌+◌, ◌/◌, ◌%◌, ◌^◌, ◌<◌, ◌≡◌, refl, ap, ◌∙◌, Bool, true, false, List, [], ◌∷◌, pos,
  some, length, arith, ◌==◌, if◌then◌else◌, map,
}
use rzi.Power.{Power, lock_count, mask_from, get_lock_mask_locked, get_lock_mask}
use rzi.Power.Balance.{IsBalanced}

abbrev pub has_bit : ℕ → ℕ → Bool
has_bit mask i = mask / 2 ^ i % 2 == 1

-- The bits of a mask below the number of locks, lowest first.
abbrev pub lock_bits : ℕ → List Bool
lock_bits m = has_bit m 0 ∷ has_bit m 1 ∷ has_bit m 2 ∷ has_bit m 3 ∷ has_bit m 4 ∷ []

abbrev pub is_used : ℕ → Bool
is_used zero = false
is_used (suc n) = true

-- The loop of the code over the tests instead of the counts.
mask_flags : ℕ → ℕ → List Bool → ℕ
mask_flags mask i [] = mask
mask_flags mask i (b ∷ bs) = mask_flags (if b then bit_or mask (2 ^ i) else mask) (i + 1) bs

mask_from-eq-flags :
    (mask i : ℕ) (cs : List ℕ) → mask_from mask i cs ≡ mask_flags mask i (map is_used cs)
unfolding mask_from mask_flags
mask_from-eq-flags mask i [] = refl
mask_from-eq-flags mask i (zero ∷ cs) = mask_from-eq-flags mask (i + 1) cs
mask_from-eq-flags mask i (suc c ∷ cs) =
    ground (arith, mask_from-eq-flags (bit_or mask (2 ^ i)) (i + 1) cs)

flags_table :
    (a b c d e : Bool)
    → lock_bits (mask_flags 0 0 (a ∷ b ∷ c ∷ d ∷ e ∷ [])) ≡ a ∷ b ∷ c ∷ d ∷ e ∷ []
unfolding mask_flags
flags_table true b c d e = grind arith
flags_table false b c d e = grind arith

flags_small : (a b c d e : Bool) → mask_flags 0 0 (a ∷ b ∷ c ∷ d ∷ e ∷ []) < 32
unfolding mask_flags
flags_small true b c d e = grind arith
flags_small false b c d e = grind arith

mask_bits :
    (cs : List ℕ)
    → length cs ≡ 5
    → (lock_bits (mask_from 0 0 cs) ≡ map is_used cs) × (mask_from 0 0 cs < 32)
mask_bits [] h = absurd (omega arith)
mask_bits (a ∷ []) h = absurd (omega arith)
mask_bits (a ∷ b ∷ []) h = absurd (omega arith)
mask_bits (a ∷ b ∷ c ∷ []) h = absurd (omega arith)
mask_bits (a ∷ b ∷ c ∷ d ∷ []) h = absurd (omega arith)
mask_bits (a ∷ b ∷ c ∷ d ∷ e ∷ []) h =
    let at_flags : mask_from 0 0 (a ∷ b ∷ c ∷ d ∷ e ∷ [])
        ≡ mask_flags 0 0 (map is_used (a ∷ b ∷ c ∷ d ∷ e ∷ [])) =
      mask_from-eq-flags 0 0 (a ∷ b ∷ c ∷ d ∷ e ∷ []) in
    (
      ap lock_bits at_flags
          ∙ flags_table (is_used a) (is_used b) (is_used c) (is_used d) (is_used e),
      omega (
        arith,
        at_flags,
        flags_small (is_used a) (is_used b) (is_used c) (is_used d) (is_used e),
      ),
    )
mask_bits (a ∷ b ∷ c ∷ d ∷ e ∷ f ∷ cs) h = absurd (omega arith)

-- In a balanced state the mask that a thread reads has exactly the bits of the locks whose count is
-- not zero, and no bit beyond the known locks.
pub get_lock_mask_bits :
    (s : Power)
    → IsBalanced s
    → (m : ℕ) × (get_lock_mask false false s ≡ (pos 0, some m))
      × (lock_bits m ≡ map is_used s.lock_counts)
      × (m < 2 ^ lock_count)
unfolding get_lock_mask get_lock_mask_locked
get_lock_mask_bits s b =
    let (bits, small) = mask_bits s.lock_counts b.slots in
    (mask_from 0 0 s.lock_counts, refl, bits, small)
