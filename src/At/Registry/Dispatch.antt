-- ===== src/At/Registry/Dispatch.antt =====
-- Dispatch in a well-formed registry, and the factory reset over the extensions.
use rzi.Prelude.{
  ℕ, ◌≡◌, inl, inr, refl, false, not, ◌&&◌, List, [], ◌∷◌, ◌++◌, ℤ, pos, none, some, eq_bytes_iff,
  if◌then◌else◌, is_zero, is_zero_iff, arith, Option-cases,
}
use rzi.Err.{Err, fail}
use rzi.At.{Request, Service, Command, Extension, Env}
use rzi.At.Registry.{
  Registry, has_name, perform, dispatch_from, dispatch, reset_from, factory_reset,
}
use rzi.At.Registry.Register.{IsWellFormed, Distinct-middle}

dispatch_from-middle :
    (env : Env) (n : List ℕ) (q : Request) (xs : List Command) (c : Command) (ys : List Command)
    (s : Service)
    → c.name ≡ some n
    → has_name (some n) xs ≡ false
    → dispatch_from env n q (xs ++ (c ∷ ys)) s ≡ perform env c q s
unfolding dispatch_from has_name
dispatch_from-middle env n q [] c ys s e h = ground (arith, e, eq_bytes_iff n n)
dispatch_from-middle env n q (x ∷ xs) c ys s e h =
    ground (arith, h, dispatch_from-middle env n q xs c ys s e)

dispatch_from-not_found :
    (env : Env) (n : List ℕ) (q : Request) (cs : List Command) (s : Service)
    → has_name (some n) cs ≡ false
    → dispatch_from env n q cs s ≡ (fail Err.not_found, s)
unfolding dispatch_from has_name
dispatch_from-not_found env n q [] s h = refl
dispatch_from-not_found env n q (c ∷ cs) s h =
    ground (arith, h, dispatch_from-not_found env n q cs s)

-- In a well-formed registry a request for the name of a registered command reaches that command,
-- wherever it stands in the table.
pub dispatch-registered :
    (env : Env) (r : Registry) (n : List ℕ) (q : Request) (s : Service) (xs : List Command)
    (c : Command) (ys : List Command)
    → IsWellFormed env r
    → r.registered ≡ xs ++ (c ∷ ys)
    → c.name ≡ some n
    → dispatch env r n q s ≡ perform env c q s
unfolding dispatch
dispatch-registered env r n q s xs c ys w e named = rw e (
    dispatch_from-middle env n q xs c ys s named
      (rw (← named) (Distinct-middle xs c ys (rw e at w.distinct))))

-- A request for a name that no registered command has returns NOT_FOUND and does nothing.
pub dispatch-unknown :
    (env : Env) (r : Registry) (n : List ℕ) (q : Request) (s : Service)
    → has_name (some n) r.registered ≡ false
    → dispatch env r n q s ≡ (fail Err.not_found, s)
unfolding dispatch
dispatch-unknown env r n q s h = dispatch_from-not_found env n q r.registered s h

-- The service after every reset function has run in order, whatever each returned.
abbrev pub reset_all : List Extension → Service → Service
reset_all [] s = s
reset_all (e ∷ es) s = reset_all es (elim e.factory_reset [ none ↦ s | some reset ↦ (reset s).1 ])

-- The first code that is not 0, of the reset functions run in order.
abbrev pub first_failure : List Extension → Service → ℤ
first_failure [] s = pos 0
first_failure (e ∷ es) s = elim e.factory_reset [
  | none ↦ first_failure es s
  | some reset ↦
      let rest = first_failure es (reset s).1 in if is_zero (reset s).0 then rest else (reset s).0
]

reset_from_lem :
    (es : List Extension) (rc : ℤ) (s : Service)
    → reset_from es (rc, s) ≡ (if is_zero rc then first_failure es s else rc, reset_all es s)
unfolding reset_from
reset_from_lem [] rc s = ground (arith, is_zero_iff rc)
reset_from_lem (e ∷ es) rc s = elim (Option-cases e.factory_reset) [
  | inl h ↦ rw h (reset_from_lem es rc s)
  | inr (reset, h) ↦ rw h (
      ground (
        arith,
        reset_from_lem es (if not (is_zero (reset s).0) && is_zero rc then (reset s).0 else rc)
            (reset s).1,
      ))
]

-- A factory reset runs the reset function of every extension, in order and also after a failure,
-- and returns the first failure.
pub factory_reset_lem :
    (r : Registry) (s : Service)
    → factory_reset r s ≡ (first_failure r.extensions s, reset_all r.extensions s)
unfolding factory_reset
factory_reset_lem r s = reset_from_lem r.extensions (pos 0) s
