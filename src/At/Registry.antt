-- ===== src/At/Registry.antt =====
-- src/at/at_registry.c: the tables of commands and extensions.
pub mod Register
pub mod Dispatch
use Prim.Native.Nat.{bit_and}
use rzi.Prelude.{
  ℕ, suc, ◌+◌, ◌-◌, ◌%◌, ◌^◌, ◌≡◌, Bool, true, false, not, ◌&&◌, ◌||◌, List, [], ◌∷◌, ◌++◌, ℤ, pos,
  Option, none, some, length, take, codes, eq_bytes, ltb, leb, ◌==◌, if◌then◌else◌, is_zero,
  is_null,
}
use rzi.Err.{Err, fail}
use rzi.At.{
  Operation, op_run, op_help, op_read, op_write, op_value, Request, Service, Command, Extension,
  Env, status_ok,
}
use rzi.At.Output.{write_raw, respond_value, respond_status, crlf}

-- The statics: `registered` and `extensions` up to their counts, and `sealed`.
pub record Registry : Type 0 where
  pub registered : List Command
  pub extensions : List Extension
  pub sealed : Bool

unfoldable pub empty : Registry
empty = record { registered = []; extensions = []; sealed = false }

abbrev pub name_char : ℕ → Bool
name_char c = (leb 65 c && leb c 90) || ((leb 48 c && leb c 57) || (c == 95))

abbrev pub name_chars : List ℕ → Bool
name_chars [] = true
name_chars (c ∷ cs) = name_char c && name_chars cs

-- `valid_name`.
abbrev pub valid_name : Option (List ℕ) → Bool
valid_name none = false
valid_name (some []) = false
valid_name (some (c ∷ cs)) = name_chars (c ∷ cs)

-- `strcmp(a, b) == 0`, for names that are not NULL.
abbrev pub same_name : Option (List ℕ) → Option (List ℕ) → Bool
same_name none b = false
same_name (some a) none = false
same_name (some a) (some b) = eq_bytes a b

-- A loop that looks for a command of this name.
unfoldable pub has_name : Option (List ℕ) → List Command → Bool
has_name n [] = false
has_name n (c ∷ cs) = same_name n c.name || has_name n cs

-- The checks of `rzi_at_register`; `earlier` are the commands before the current one.
unfoldable pub check_from : List Command → List Command → List Command → ℤ
unfolding has_name
check_from registered earlier [] = pos 0
check_from registered earlier (c ∷ cs) =
    let rest = check_from registered (earlier ++ (c ∷ [])) cs in
    if not (valid_name c.name) || is_null c.handler
    then fail Err.invalid
    else if has_name c.name registered
    then fail Err.already
    else if has_name c.name earlier
    then fail Err.already
    else rest

-- `size_t` has 32 bits; the sum that is compared may wrap.
abbrev pub add_size : ℕ → ℕ → ℕ
add_size a b = (a + b) % 2 ^ 32

-- `rzi_at_register`; `commands` is `none` for NULL, and the loops read its first `count` elements.
unfoldable pub register : Env → Option (List Command) → ℕ → Registry → ℤ × Registry
unfolding check_from
register env commands count r =
    let cs : List Command = elim commands [ none ↦ [] | some l ↦ take count l ] in
    let rc = check_from r.registered [] cs in
    if r.sealed
    then (fail Err.invalid_state, r)
    else if (is_null commands && not (count == 0))
        || ltb env.max_commands (add_size (length r.registered) count)
    then (fail Err.invalid, r)
    else if is_zero rc
    then (pos 0, record r { registered = r.registered ++ cs })
    else (rc, r)

unfoldable pub seal : Registry → Registry
seal r = record r { sealed = true }

unfoldable pub add_extension : Env → Option Extension → Registry → ℤ × Registry
add_extension env none r = (fail Err.no_resource, r)
add_extension env (some e) r =
    if leb env.max_extensions (length r.extensions)
    then (fail Err.no_resource, r)
    else (pos 0, record r { extensions = r.extensions ++ (e ∷ []) })

-- `rzi_at_registry_start_extensions`: stops at the first failure.
pub start_from : List Extension → Service → ℤ × Service
start_from [] s = (pos 0, s)
start_from (e ∷ es) s = elim e.start [
  | none ↦ start_from es s
  | some start ↦ elim (is_zero (start s).0) [ true ↦ start_from es (start s).1 | false ↦ start s ]
]

unfoldable pub start_extensions : Registry → Service → ℤ × Service
unfolding start_from
start_extensions r s = start_from r.extensions s

process_from : List Extension → Service → Service
process_from [] s = s
process_from (e ∷ es) s = process_from es (elim e.process [ none ↦ s | some process ↦ process s ])

unfoldable pub process_extensions : Registry → Service → Service
unfolding process_from
process_extensions r s = process_from r.extensions s

-- One round of `rzi_at_registry_factory_reset`: the first failure is kept.
abbrev pub reset_one : Extension → ℤ × Service → ℤ × Service
reset_one e (result, s) = elim e.factory_reset [
  | none ↦ (result, s)
  | some reset ↦
      let (rc, s') = reset s in (if not (is_zero rc) && is_zero result then rc else result, s')
]

unfoldable pub reset_from : List Extension → ℤ × Service → ℤ × Service
reset_from [] acc = acc
reset_from (e ∷ es) acc = reset_from es (reset_one e acc)

unfoldable pub factory_reset : Registry → Service → ℤ × Service
unfolding reset_from
factory_reset r s = reset_from r.extensions (pos 0, s)

abbrev allows : ℕ → Operation → Bool
allows mask operation = not (bit_and mask (2 ^ op_value operation) == 0)

abbrev pub name_or_empty : Option (List ℕ) → List ℕ
name_or_empty none = []
name_or_empty (some n) = n

-- What `rzi_at_dispatch` does with the command that has the name.
unfoldable pub perform : Env → Command → Request → Service → ℤ × Service
perform env c request s = elim request.operation [
  | op_help ↦ elim c.help [
    | none ↦ (fail Err.not_supported, s)
    | some help ↦
        respond_value env (some (codes "AT+" ++ name_or_empty c.name ++ codes ": " ++ help)) s
  ]
  | _ ↦
      if allows c.allowed_operations request.operation
      then elim c.handler [ none ↦ (fail Err.not_supported, s) | some h ↦ h request s ]
      else (fail Err.not_supported, s)
]

-- The search loop of `rzi_at_dispatch`.
dispatch_from : Env → List ℕ → Request → List Command → Service → ℤ × Service
dispatch_from env name request [] s = (fail Err.not_found, s)
dispatch_from env name request (c ∷ cs) s = elim (same_name (some name) c.name) [
  | true ↦ perform env c request s
  | false ↦ dispatch_from env name request cs s
]

unfoldable pub dispatch : Env → Registry → List ℕ → Request → Service → ℤ × Service
unfolding dispatch_from
dispatch env r name request s = dispatch_from env name request r.registered s

abbrev help_intro : List ℕ
help_intro =
    crlf
    ++ codes "AT+<CMD>?: help on <CMD>"
    ++ crlf
    ++ codes "AT+<CMD>: run <CMD>"
    ++ crlf
    ++ codes "AT+<CMD>=<value>: set the value"
    ++ crlf
    ++ codes "AT+<CMD>=?: get the value"
    ++ crlf

abbrev help_line : List ℕ → List ℕ → List ℕ
help_line name help = codes "AT+" ++ name ++ codes ": " ++ help ++ crlf

-- The loop of `rzi_at_registry_write_all_help`; the line buffer has 160 bytes.
help_from : Env → List Command → Service → ℤ × Service
help_from env [] s = respond_status env status_ok s
help_from env (c ∷ cs) s = elim c.help [
  | none ↦ help_from env cs s
  | some help ↦
      let l = help_line (name_or_empty c.name) help in
      elim (leb 160 (length l)) [
        | true ↦ (fail Err.overflow, s)
        | false ↦
            let (rc, s') = write_raw env (some l) s in
            elim (is_zero rc) [ true ↦ help_from env cs s' | false ↦ (rc, s') ]
      ]
]

unfoldable pub write_all_help : Env → Registry → Service → ℤ × Service
unfolding help_from
write_all_help env r s =
    let (rc, s') = write_raw env (some help_intro) s in
    if is_zero rc then help_from env r.registered s' else (rc, s')
