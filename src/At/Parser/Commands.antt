-- ===== src/At/Parser/Commands.antt =====
-- What the parser makes of a complete line.
use rzi.Prelude.{
  ℕ, ◌≡◌, ◌≢◌, ◌⊎◌, refl, true, false, Option, none, some, List, [], ◌∷◌, ◌++◌, map, pos, codes,
  eq_bytes_iff, arith, append-nil, get_or,
}
use rzi.At.{
  Operation, op_run, op_help, op_read, op_write, Request, Service, Command, Env, status_error,
}
use rzi.At.Output.{respond_status}
use rzi.At.Registry.{Registry, perform}
use rzi.At.Registry.Register.{IsWellFormed}
use rzi.At.Registry.Dispatch.{dispatch-registered}
use rzi.At.Parser.{
  to_upper, is_separator, split_at_separator, contains, parse_operation, parse_command,
  execute_command, execute, respond_for_error, equals_ignore_case, casecmp_n,
}

-- The bytes of a command name as a user types it: no separator and no NUL.
abbrev pub IsNameText : List ℕ → Type 0
IsNameText [] = Unit
IsNameText (c ∷ cs) = (is_separator c ≡ false) × (c ≢ 0) × IsNameText cs

-- The requests that a line can carry: only a write has an argument, which is a text that is not
-- empty and has no question mark.
abbrev pub IsSendable : Operation → Option (List ℕ) → Type 0
IsSendable op_write (some (c ∷ cs)) = (c ≢ 0) × (contains b'?' (c ∷ cs) ≡ false)
IsSendable op_write _ = ⊥
IsSendable _ none = Unit
IsSendable _ (some a) = ⊥

-- How a request is written behind the name.
abbrev pub print_request : Operation → Option (List ℕ) → List ℕ
print_request op_run a = []
print_request op_help a = codes "?"
print_request op_read a = codes "=?"
print_request op_write none = codes "="
print_request op_write (some a) = b'=' ∷ a

split-name :
    (name rest : List ℕ)
    → IsNameText name
    → split_at_separator rest ≡ ([], some rest)
    → split_at_separator (name ++ rest) ≡ (name, some rest)
unfolding split_at_separator
split-name [] rest h e = e
split-name (c ∷ cs) rest h e = ground (arith, h.0, split-name cs rest h.2 e)

split-name_end : (name : List ℕ) → IsNameText name → split_at_separator name ≡ (name, none)
unfolding split_at_separator
split-name_end [] h = refl
split-name_end (c ∷ cs) h = ground (arith, h.0, split-name_end cs h.2)

-- A command that is printed as a user would type it is read back: the request is the same, and the
-- name comes out in upper case.
pub parse_command-print :
    (name : List ℕ) (o : Operation) (a : Option (List ℕ))
    → name ≢ []
    → IsNameText name
    → IsSendable o a
    → parse_command (name ++ print_request o a)
      ≡ some (map to_upper name, record { operation = o; argument = a })
unfolding parse_command parse_operation
parse_command-print [] o a ne h q = absurd (ne refl)
parse_command-print (c ∷ cs) op_run none ne h q =
    rw append-nil (ground (arith, h, split-name_end (c ∷ cs) h))
parse_command-print (c ∷ cs) op_help none ne h q =
    ground (arith, h, split-name (c ∷ cs) (codes "?") h (unfold split_at_separator in refl))
parse_command-print (c ∷ cs) op_read none ne h q =
    ground (arith, h, split-name (c ∷ cs) (codes "=?") h (unfold split_at_separator in refl))
parse_command-print (c ∷ cs) op_write (some (x ∷ xs)) ne h q =
    ground (arith, h, q, split-name (c ∷ cs) (b'=' ∷ x ∷ xs) h (unfold split_at_separator in refl))
parse_command-print (c ∷ cs) op_write (some []) ne h q = absurd q
parse_command-print (c ∷ cs) op_write none ne h q = absurd q
parse_command-print (c ∷ cs) op_run (some a) ne h q = absurd q
parse_command-print (c ∷ cs) op_help (some a) ne h q = absurd q
parse_command-print (c ∷ cs) op_read (some a) ne h q = absurd q

-- The prefix in either case.
abbrev pub IsPrefixAt : ℕ → ℕ → Type 0
IsPrefixAt a t = (to_upper a ≡ 65) × (to_upper t ≡ 84)

other_word :
    (a t : ℕ) (body w : List ℕ)
    → IsPrefixAt a t
    → to_upper (get_or w 2 0) ≢ b'+'
    → equals_ignore_case (a ∷ t ∷ b'+' ∷ body) w ≡ false
unfolding equals_ignore_case casecmp_n
other_word a t body [] pre h = ground arith
other_word a t body (x ∷ []) pre h = ground arith
other_word a t body (x ∷ y ∷ []) pre h = ground arith
other_word a t body (x ∷ y ∷ z ∷ w) pre h = ground arith

prefix_matches :
    (a t : ℕ) (body : List ℕ)
    → IsPrefixAt a t
    → casecmp_n (a ∷ t ∷ b'+' ∷ body) (codes "AT+") 3 ≡ pos 0
unfolding casecmp_n
prefix_matches a t body h = ground arith

execute-prefix :
    (env : Env) (r : Registry) (a t : ℕ) (body : List ℕ) (s : Service)
    → IsPrefixAt a t
    → execute env r (a ∷ t ∷ b'+' ∷ body) s ≡ execute_command env r body s
unfolding execute
execute-prefix env r a t body s h = rw (
  other_word a t body (codes "AT") h (omega arith),
  other_word a t body (codes "AT?") h (omega arith),
  other_word a t body (codes "ATE") h (omega arith),
  other_word a t body (codes "ATE?") h (omega arith),
  other_word a t body (codes "ATZ") h (omega arith),
  other_word a t body (codes "ATZ?") h (omega arith),
  other_word a t body (codes "ATR") h (omega arith),
  other_word a t body (codes "ATR?") h (omega arith),
  prefix_matches a t body h,
)

-- From the line to the handler: in a well-formed registry, on a device that is not locked or for one
-- of the two names that a lock leaves open, a printed command whose name in upper case is registered
-- is given to that command, and the answer is the one for the result's code.
pub execute-registered :
    (env : Env) (r : Registry) (a t : ℕ) (name : List ℕ) (o : Operation) (arg : Option (List ℕ))
    (s : Service) (xs : List Command) (c : Command) (ys : List Command)
    → IsWellFormed env r
    → IsPrefixAt a t
    → name ≢ []
    → IsNameText name
    → IsSendable o arg
    → r.registered ≡ xs ++ (c ∷ ys)
    → c.name ≡ some (map to_upper name)
    → (s.locked ≡ false) ⊎ (map to_upper name ≡ codes "PWORD") ⊎ (map to_upper name ≡ codes "LOCK")
    → let (rc, s') = perform env c (record { operation = o; argument = arg }) s in
      execute env r (a ∷ t ∷ b'+' ∷ (name ++ print_request o arg)) s ≡ respond_for_error env rc s'
unfolding execute_command
execute-registered env r a t name o arg s xs c ys w pre ne h q at named open_name =
    rw
      (
        execute-prefix env r a t (name ++ print_request o arg) s pre,
        parse_command-print name o arg ne h q,
        execute_command,
      )
      (ground (
        arith,
        open_name,
        eq_bytes_iff (map to_upper name) (codes "PWORD"),
        eq_bytes_iff (map to_upper name) (codes "LOCK"),
        dispatch-registered env r (map to_upper name) (record { operation = o; argument = arg }) s
            xs c ys w at named,
      ))

-- On a locked device a command behind "AT+" with any other name is answered by AT_ERROR, and no
-- handler runs, whether or not it is registered.
pub execute-locked :
    (env : Env) (r : Registry) (a t : ℕ) (body : List ℕ) (s : Service) (name : List ℕ) (q : Request)
    → IsPrefixAt a t
    → s.locked ≡ true
    → parse_command body ≡ some (name, q)
    → name ≢ codes "PWORD"
    → name ≢ codes "LOCK"
    → execute env r (a ∷ t ∷ b'+' ∷ body) s ≡ (respond_status env status_error s).1
unfolding execute_command
execute-locked env r a t body s name q pre locked parsed np nl =
    rw (execute-prefix env r a t body s pre, parsed, execute_command)
      (ground (arith, locked, eq_bytes_iff name (codes "PWORD"), eq_bytes_iff name (codes "LOCK")))
