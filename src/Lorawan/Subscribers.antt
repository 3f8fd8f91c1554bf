-- ===== src/Lorawan/Subscribers.antt =====
-- lorawan.c: registration of subscribers.
pub mod Slots
use rzi.Prelude.{
  ℕ, Bool, true, false, not, ◌&&◌, ◌||◌, List, [], ◌∷◌, ℤ, pos, Option, none, some, ◌==◌,
  if◌then◌else◌, is_null,
}
use rzi.Err.{Err, fail}
use rzi.Lorawan.{Callbacks, Host, Lorawan}

abbrev pub same_pointer : Option ℕ → Option ℕ → Bool
same_pointer none none = true
same_pointer none (some b) = false
same_pointer (some a) none = false
same_pointer (some a) (some b) = a == b

abbrev pub same_subscriber : Callbacks → Callbacks → Bool
same_subscriber a b = same_pointer a.on_event b.on_event && (a.user_data == b.user_data)

-- The loop of `rzi_lorawan_register_callbacks` finds an equal subscriber in an active slot.
abbrev pub is_registered : Callbacks → List (Option Callbacks) → Bool
is_registered c [] = false
is_registered c (none ∷ slots) = is_registered c slots
is_registered c (some a ∷ slots) = same_subscriber a c || is_registered c slots

-- The slots with `c` in the first one that is not active, if there is one.
abbrev pub fill_first : Callbacks → List (Option Callbacks) → Option (List (Option Callbacks))
fill_first c [] = none
fill_first c (none ∷ slots) = some (some c ∷ slots)
fill_first c (some a ∷ slots) = elim (fill_first c slots) [
  | none ↦ none
  | some slots' ↦ some (some a ∷ slots')
]

-- The slots with the first equal subscriber cleared, if there is one.
abbrev pub clear_first : Callbacks → List (Option Callbacks) → Option (List (Option Callbacks))
clear_first c [] = none
clear_first c (none ∷ slots) = elim (clear_first c slots) [
  | none ↦ none
  | some slots' ↦ some (none ∷ slots')
]
clear_first c (some a ∷ slots) =
    if same_subscriber a c
    then some (none ∷ slots)
    else elim (clear_first c slots) [ none ↦ none | some slots' ↦ some (some a ∷ slots') ]

module _ (h : Host) where
  -- The argument is `none` for NULL.
  unfoldable pub register_callbacks : Bool → Option Callbacks → Lorawan h → ℤ × Lorawan h
  register_callbacks isr none s = if isr then (fail Err.isr, s) else (fail Err.invalid, s)
  register_callbacks isr (some c) s =
      if isr
      then (fail Err.isr, s)
      else if is_null c.on_event
      then (fail Err.invalid, s)
      else if is_registered c s.callback_slots
      then (fail Err.already, s)
      else elim (fill_first c s.callback_slots) [
        | none ↦ (fail Err.no_resource, s)
        | some slots ↦ (pos 0, record s { callback_slots = slots })
      ]

  unfoldable pub unregister_callbacks : Bool → Option Callbacks → Lorawan h → ℤ × Lorawan h
  unregister_callbacks isr none s = if isr then (fail Err.isr, s) else (fail Err.invalid, s)
  unregister_callbacks isr (some c) s =
      if isr
      then (fail Err.isr, s)
      else if is_null c.on_event
      then (fail Err.invalid, s)
      else elim (clear_first c s.callback_slots) [
        | none ↦ (fail Err.not_found, s)
        | some slots ↦ (pos 0, record s { callback_slots = slots })
      ]
