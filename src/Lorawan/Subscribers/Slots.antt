-- ===== src/Lorawan/Subscribers/Slots.antt =====
-- The table of subscribers as a bounded set.
use rzi.Prelude.{
  ℕ, ◌≡◌, ◌⊎◌, inl, inr, refl, subst, Bool, true, false, ◌||◌, List, [], ◌∷◌, pos, Option, none,
  some, is_null, length, arith, Option-cases,
}
use rzi.Err.{Err, fail}
use rzi.Lorawan.{Callbacks, Host, Lorawan}
use rzi.Lorawan.Subscribers.{
  same_pointer, same_subscriber, is_registered, fill_first, clear_first, register_callbacks,
  unregister_callbacks,
}

-- No two active slots hold the same subscriber.
abbrev pub Distinct : List (Option Callbacks) → Type 0
Distinct [] = Unit
Distinct (none ∷ slots) = Distinct slots
Distinct (some a ∷ slots) = (is_registered a slots ≡ false) × Distinct slots

abbrev pub has_room : List (Option Callbacks) → Bool
has_room [] = false
has_room (none ∷ slots) = true
has_room (some a ∷ slots) = has_room slots

same_pointer_refl : (a : Option ℕ) → same_pointer a a ≡ true
same_pointer_refl none = refl
same_pointer_refl (some n) = ground arith

same_subscriber_sym : (a b : Callbacks) → same_subscriber a b ≡ same_subscriber b a
same_subscriber_sym a b = ground arith

fill_first-facts :
    (c a : Callbacks) (slots slots' : List (Option Callbacks))
    → fill_first c slots ≡ some slots'
    → (length slots' ≡ length slots)
      × (is_registered a slots' ≡ (same_subscriber c a || is_registered a slots))
      × (has_room slots ≡ true)
fill_first-facts c a [] slots' h = cc
fill_first-facts c a (none ∷ slots) slots' h = ground (arith, h)
fill_first-facts c a (some b ∷ slots) slots' h = elim (Option-cases (fill_first c slots)) [
  | inl e ↦ ground (arith, e, h)
  | inr (rest, e) ↦ ground (arith, e, h, fill_first-facts c a slots rest e)
]

fill_first-none :
    (c : Callbacks) (slots : List (Option Callbacks))
    → fill_first c slots ≡ none
    → has_room slots ≡ false
fill_first-none c [] h = refl
fill_first-none c (none ∷ slots) h = cc
fill_first-none c (some b ∷ slots) h = elim (Option-cases (fill_first c slots)) [
  | inl e ↦ fill_first-none c slots e
  | inr (rest, e) ↦ ground (arith, e, h)
]

fill_first-Distinct :
    (c : Callbacks) (slots slots' : List (Option Callbacks))
    → Distinct slots
    → is_registered c slots ≡ false
    → fill_first c slots ≡ some slots'
    → Distinct slots'
fill_first-Distinct c [] slots' d new h = cc
fill_first-Distinct c (none ∷ slots) slots' d new h =
    let e : (some c ∷ slots) ≡ slots' = cc in subst Distinct e (new, d)
fill_first-Distinct c (some b ∷ slots) slots' d new h = elim (Option-cases (fill_first c slots)) [
  | inl none_left ↦ ground (arith, none_left, h)
  | inr (rest, e) ↦
      let filled : (some b ∷ rest) ≡ slots' = ground (arith, e, h) in
      subst Distinct filled (
        ground (arith, d.0, new, same_subscriber_sym b c, fill_first-facts c b slots rest e),
        fill_first-Distinct c slots rest d.1 (ground (arith, new)) e,
      )
]

clear_first-fill_first :
    (c : Callbacks) (slots slots' : List (Option Callbacks))
    → is_registered c slots ≡ false
    → fill_first c slots ≡ some slots'
    → clear_first c slots' ≡ some slots
clear_first-fill_first c [] slots' new h = cc
clear_first-fill_first c (none ∷ slots) slots' new h =
    ground (arith, h, same_pointer_refl c.on_event)
clear_first-fill_first c (some b ∷ slots) slots' new h = elim (Option-cases (fill_first c slots)) [
  | inl e ↦ ground (arith, e, h)
  | inr (rest, e) ↦ ground (arith, e, h, new, clear_first-fill_first c slots rest)
]

module _ (h : Host) where
  -- Registration of a subscriber with a handler from a thread, with distinct subscribers in the table:
  -- it is refused as ALREADY exactly when an equal subscriber is active, as NO_RESOURCE exactly when
  -- it is new and no slot is free, and then nothing changes; otherwise it succeeds, the table keeps
  -- its size and stays distinct, and it gains this subscriber and no other.
  pub register_callbacks_lem :
      (c a : Callbacks) (s : Lorawan h)
      → is_null c.on_event ≡ false
      → Distinct s.callback_slots
      → let (rc, t) = register_callbacks h false (some c) s in
        ((is_registered c s.callback_slots ≡ true) × (rc ≡ fail Err.already) × (t ≡ s))
        ⊎ ((is_registered c s.callback_slots ≡ false)
            × (has_room s.callback_slots ≡ false)
            × (rc ≡ fail Err.no_resource)
            × (t ≡ s))
        ⊎ ((is_registered c s.callback_slots ≡ false)
            × (has_room s.callback_slots ≡ true)
            × (rc ≡ pos 0)
            × (length t.callback_slots ≡ length s.callback_slots)
            × Distinct t.callback_slots
            × (is_registered a t.callback_slots
                ≡ (same_subscriber c a || is_registered a s.callback_slots)))
  unfolding register_callbacks
  register_callbacks_lem c a s handler d = elim (Option-cases (fill_first c s.callback_slots)) [
    | inl full ↦ ground (arith, handler, full, fill_first-none c s.callback_slots full)
    | inr (slots, e) ↦ ground (
      arith,
      handler,
      e,
      fill_first-facts c a s.callback_slots slots e,
      fill_first-Distinct c s.callback_slots slots d,
    )
  ]

  -- Unregistering takes back a registration that succeeded: the state is as before it.
  pub unregister-register :
      (c : Callbacks) (s t : Lorawan h)
      → register_callbacks h false (some c) s ≡ (pos 0, t)
      → unregister_callbacks h false (some c) t ≡ (pos 0, s)
  unfolding register_callbacks unregister_callbacks
  unregister-register c s t done = elim (Option-cases (fill_first c s.callback_slots)) [
    | inl full ↦ ground (arith, done, full)
    | inr (slots, e) ↦ ground (arith, done, e, clear_first-fill_first c s.callback_slots slots)
  ]
