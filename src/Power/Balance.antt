-- ===== src/Power/Balance.antt =====
-- The references that the power service holds on Zephyr's policy, and those it has handed out.
use mathlib.Core.Option
use rzi.Prelude.{
  ℕ, zero, suc, ◌+◌, ◌-◌, ◌≤◌, ◌<◌, ◌≡◌, refl, ap, ◌⊎◌, Bool, true, false, Option, none, some, List,
  [], ◌∷◌, ℤ, pos, length, get_or, set, length-set, arith, ◌==◌, if◌then◌else◌, is_zero, not,
}
use rzi.Err.{Err, fail}
use rzi.Power.{
  lock_count, PmCall, all_lock_get, all_lock_put, sleep_forever, sleep_ms, Power, initial,
  set_pm_enabled, lock_get, lock_put, sleep, Request, switch, take_lock, drop_lock, rest, serve,
  run,
}

-- References held after the calls (latest first); `none` when one was released that was not held.
abbrev pub held : List PmCall → Option ℕ
held [] = some 0
held (all_lock_get ∷ cs) = Option.map suc (held cs)
held (all_lock_put ∷ cs) = Option.bind (held cs) (λ n. if n == 0 then none else some (n - 1))
held (sleep_forever ∷ cs) = held cs
held (sleep_ms n ∷ cs) = held cs

abbrev pub total : List ℕ → ℕ
total [] = 0
total (c ∷ cs) = c + total cs

abbrev pub AllBytes : List ℕ → Type 0
AllBytes [] = Unit
AllBytes (c ∷ cs) = (c ≤ 255) × AllBytes cs

abbrev pub switch_ref : Bool → ℕ
switch_ref true = 1
switch_ref false = 0

-- One native reference for the switch and one for each counted take, none released twice.
pub record IsBalanced (s : Power) : Type 0 where
  pub slots : length s.lock_counts ≡ lock_count
  pub bytes : AllBytes s.lock_counts
  pub refs : held s.calls ≡ some (total s.lock_counts + switch_ref s.is_pm_locked)

total-set :
    (cs : List ℕ) (i v : ℕ) → i < length cs → total (set cs i v) + get_or cs i 0 ≡ total cs + v
total-set [] i v h = elim h [ ]
total-set (c ∷ cs) zero v h = omega arith
total-set (c ∷ cs) (suc i) v h = omega (arith, total-set cs i v (omega arith))

get_or-le-total : (cs : List ℕ) (i : ℕ) → get_or cs i 0 ≤ total cs
get_or-le-total [] i = omega arith
get_or-le-total (c ∷ cs) zero = omega arith
get_or-le-total (c ∷ cs) (suc i) = omega (arith, get_or-le-total cs i)

AllBytes-get_or : (cs : List ℕ) (i : ℕ) → AllBytes cs → get_or cs i 0 ≤ 255
AllBytes-get_or [] i h = omega arith
AllBytes-get_or (c ∷ cs) zero h = h.0
AllBytes-get_or (c ∷ cs) (suc i) h = AllBytes-get_or cs i h.1

AllBytes-set : (cs : List ℕ) (i v : ℕ) → v ≤ 255 → AllBytes cs → AllBytes (set cs i v)
AllBytes-set [] i v h a = a
AllBytes-set (c ∷ cs) zero v h a = (h, a.1)
AllBytes-set (c ∷ cs) (suc i) v h a = (a.0, AllBytes-set cs i v h a.1)

pub initial-IsBalanced : IsBalanced initial
unfolding initial
initial-IsBalanced = record { slots = refl; bytes = omega arith; refs = refl }

pub lock_get-IsBalanced :
    (isr : Bool) (lock : ℕ) (s : Power) → IsBalanced s → IsBalanced (lock_get isr lock s).1
unfolding lock_get
lock_get-IsBalanced isr lock s b = ground (
  arith,
  b.slots,
  length-set s.lock_counts lock (get_or s.lock_counts lock 0 + 1),
  total-set s.lock_counts lock (get_or s.lock_counts lock 0 + 1),
  AllBytes-get_or s.lock_counts lock b.bytes,
  AllBytes-set s.lock_counts lock (get_or s.lock_counts lock 0 + 1),
)

pub lock_put-IsBalanced :
    (isr : Bool) (lock : ℕ) (s : Power) → IsBalanced s → IsBalanced (lock_put isr lock s).1
unfolding lock_put Option.bind
lock_put-IsBalanced isr lock s b = ground (
  arith,
  b.slots,
  length-set s.lock_counts lock (get_or s.lock_counts lock 0 - 1),
  total-set s.lock_counts lock (get_or s.lock_counts lock 0 - 1),
  get_or-le-total s.lock_counts lock,
  AllBytes-get_or s.lock_counts lock b.bytes,
  AllBytes-set s.lock_counts lock (get_or s.lock_counts lock 0 - 1),
)

set_pm_enabled-IsBalanced :
    (isr pm enabled : Bool) (s : Power)
    → IsBalanced s
    → IsBalanced (set_pm_enabled isr pm enabled s).1
unfolding set_pm_enabled Option.bind
set_pm_enabled-IsBalanced isr pm enabled s b = ground arith

sleep-IsBalanced :
    (isr : Bool) (timeout : ℤ) (s : Power) → IsBalanced s → IsBalanced (sleep isr timeout s).1
unfolding sleep
sleep-IsBalanced isr timeout s b = ground arith

serve-IsBalanced :
    (pm : Bool) (r : Request) (s : Power) → IsBalanced s → IsBalanced (serve pm r s).1
unfolding serve
serve-IsBalanced pm (switch isr enabled) s b = set_pm_enabled-IsBalanced isr pm enabled s b
serve-IsBalanced pm (take_lock isr lock) s b = lock_get-IsBalanced isr lock s b
serve-IsBalanced pm (drop_lock isr lock) s b = lock_put-IsBalanced isr lock s b
serve-IsBalanced pm (rest isr timeout) s b = sleep-IsBalanced isr timeout s b

run_from-IsBalanced :
    (pm : Bool) (rs : List Request) (s : Power) → IsBalanced s → IsBalanced (run pm rs s)
unfolding run
run_from-IsBalanced pm [] s b = b
run_from-IsBalanced pm (r ∷ rs) s b =
    run_from-IsBalanced pm rs (serve pm r s).1 (serve-IsBalanced pm r s b)

-- After any requests from the initial state, the references held on Zephyr's policy are the counted
-- takes plus one for a disabled switch, no reference was ever released that was not held, and every
-- count is a byte.
pub run-IsBalanced : (pm : Bool) (rs : List Request) → IsBalanced (run pm rs initial)
run-IsBalanced pm rs = run_from-IsBalanced pm rs initial initial-IsBalanced

set_back : (cs : List ℕ) (i : ℕ) → set (set cs i (get_or cs i 0 + 1)) i (get_or cs i 0) ≡ cs
set_back [] i = refl
set_back (c ∷ cs) zero = refl
set_back (c ∷ cs) (suc i) = ap (λ (r : List ℕ). c ∷ r) (set_back cs i)

get_or-set_self : (cs : List ℕ) (i v : ℕ) → i < length cs → get_or (set cs i v) i 0 ≡ v
get_or-set_self [] i v h = elim h [ ]
get_or-set_self (c ∷ cs) zero v h = refl
get_or-set_self (c ∷ cs) (suc i) v h = get_or-set_self cs i v (omega arith)

-- In a balanced state a take from a thread is refused exactly at an unknown lock (INVALID) or a full
-- count (NO_RESOURCE), and then changes nothing; otherwise a release undoes it: it succeeds and
-- restores every count and the switch, with the one reference taken and released.
pub lock_put-lock_get :
    (lock : ℕ) (s : Power)
    → IsBalanced s
    → let (rc, t) = lock_get false lock s in
      let (rc', u) = lock_put false lock t in
      ((lock_count ≤ lock) × (rc ≡ fail Err.invalid) × (t ≡ s))
      ⊎ ((lock < lock_count)
          × (get_or s.lock_counts lock 0 ≡ 255)
          × (rc ≡ fail Err.no_resource)
          × (t ≡ s))
      ⊎ ((lock < lock_count)
          × (rc ≡ pos 0)
          × (rc' ≡ pos 0)
          × (u ≡ record s { calls = all_lock_put ∷ all_lock_get ∷ s.calls }))
unfolding lock_get lock_put
lock_put-lock_get lock s b = ground (
  arith,
  b.slots,
  set_back s.lock_counts lock,
  get_or-set_self s.lock_counts lock (get_or s.lock_counts lock 0 + 1),
)

-- The count of a lock after a take from a thread, which succeeds unless the count is full.
pub lock-count_get :
    (lock : ℕ) (s : Power)
    → IsBalanced s
    → lock < lock_count
    → let (rc, t) = lock_get false lock s in
      (get_or t.lock_counts lock 0
        ≡ (if is_zero rc then get_or s.lock_counts lock 0 + 1 else get_or s.lock_counts lock 0))
      × (is_zero rc ≡ not (get_or s.lock_counts lock 0 == 255))
unfolding lock_get
lock-count_get lock s b known =
    ground
      (arith, b.slots, known, get_or-set_self s.lock_counts lock (get_or s.lock_counts lock 0 + 1))

-- The count of a lock after a release from a thread, which succeeds unless the count is 0.
pub lock-count_put :
    (lock : ℕ) (s : Power)
    → IsBalanced s
    → lock < lock_count
    → let (rc, t) = lock_put false lock s in
      (get_or t.lock_counts lock 0 ≡ get_or s.lock_counts lock 0 - 1)
      × (is_zero rc ≡ not (get_or s.lock_counts lock 0 == 0))
unfolding lock_put
lock-count_put lock s b known =
    ground
      (arith, b.slots, known, get_or-set_self s.lock_counts lock (get_or s.lock_counts lock 0 - 1))
