-- ===== src/At/Parser.antt =====
-- src/at/at_parser.c: the line buffer and the dispatch of a complete line.
-- `line` holds the bytes of the buffer below `line_length`; those above it are never read.
pub mod Lines
pub mod Commands
use rzi.Prelude.{
  ℕ, zero, suc, ◌+◌, ◌-◌, Bool, true, false, not, ◌&&◌, ◌||◌, List, [], ◌∷◌, ◌++◌, map, ℤ, pos,
  negsuc, Option, none, some, length, get_or, take, drop, codes, eq_bytes, ltb, leb, ◌==◌, ◌==ℤ◌,
  if◌then◌else◌, is_zero, is_null,
}
use rzi.Err.{Err, fail}
use rzi.At.{
  Operation, op_run, op_help, op_read, op_write, Status, status_ok, status_error, param_error,
  busy_error, no_network_joined, test_param_overflow, Request, Out, reboot, Service, Env,
}
use rzi.At.Output.{set_echo, write_raw, respond_status, respond_value, crlf}
use rzi.At.Registry.{Registry, factory_reset, dispatch, write_all_help}

-- The statics of at_parser.c.
pub record Parser : Type 0 where
  pub line : List ℕ
  pub line_overflow : Bool
  pub ignore_lf : Bool

unfoldable pub reset : Parser
reset = record { line = []; line_overflow = false; ignore_lf = false }

abbrev pub to_upper : ℕ → ℕ
to_upper c = if leb 97 c && leb c 122 then c - 32 else c

-- The byte that a `char *` points at; a text ends with NUL.
abbrev first_byte : List ℕ → ℕ
first_byte s = get_or s 0 0

-- a - b, as an int.
abbrev difference : ℕ → ℕ → ℤ
difference a b = if leb b a then pos (a - b) else negsuc (b - a - 1)

unfoldable pub casecmp_n : List ℕ → List ℕ → ℕ → ℤ
casecmp_n left right zero = pos 0
casecmp_n left right (suc n) =
    let a = to_upper (first_byte left) in
    let b = to_upper (first_byte right) in
    let rest = casecmp_n (drop 1 left) (drop 1 right) n in
    if not (a == b) || (a == 0) then difference a b else rest

unfoldable pub equals_ignore_case : List ℕ → List ℕ → Bool
unfolding casecmp_n
equals_ignore_case left right =
    (length left == length right) && is_zero (casecmp_n left right (length left))

-- `respond_for_error`.
unfoldable pub respond_for_error : Env → ℤ → Service → Service
respond_for_error env rc s =
    if rc ==ℤ fail Err.invalid
    then (respond_status env param_error s).1
    else if rc ==ℤ fail Err.busy
    then (respond_status env busy_error s).1
    else if rc ==ℤ fail Err.not_joined
    then (respond_status env no_network_joined s).1
    else if (rc ==ℤ fail Err.too_large) || (rc ==ℤ fail Err.overflow)
    then (respond_status env test_param_overflow s).1
    else if is_zero rc
    then s
    else (respond_status env status_error s).1

abbrev pub is_separator : ℕ → Bool
is_separator c = (c == b'=') || (c == b'?')

-- `strpbrk(body, "=?")`: what stands before the separator, and the text from it on.
unfoldable pub split_at_separator : List ℕ → List ℕ × Option (List ℕ)
split_at_separator [] = ([], none)
split_at_separator (c ∷ cs) =
    let (before, from) = split_at_separator cs in
    if is_separator c then ([], some (c ∷ cs)) else (c ∷ before, from)

unfoldable pub contains : ℕ → List ℕ → Bool
contains x [] = false
contains x (c ∷ cs) = (c == x) || contains x cs

-- The operation and argument that the text from the separator on stands for; `none` is an error.
unfoldable pub parse_operation : Option (List ℕ) → Option Request
unfolding contains
parse_operation none = some (record { operation = op_run; argument = none })
parse_operation (some sep) =
    if eq_bytes sep (codes "?")
    then some (record { operation = op_help; argument = none })
    else if eq_bytes sep (codes "=?")
    then some (record { operation = op_read; argument = none })
    else if (first_byte sep == b'=')
        && (not (get_or sep 1 0 == 0) && not (contains b'?' (drop 1 sep)))
    then some (record { operation = op_write; argument = some (drop 1 sep) })
    else none

-- The name and request of a line behind "AT+", the name in upper case.
unfoldable pub parse_command : List ℕ → Option (List ℕ × Request)
unfolding split_at_separator parse_operation
parse_command body =
    let (name, sep) = split_at_separator body in
    elim (parse_operation sep) [
      | none ↦ none
      | some request ↦ if first_byte name == 0 then none else some (map to_upper name, request)
    ]

-- The part of `execute` behind "AT+".
unfoldable pub execute_command : Env → Registry → List ℕ → Service → Service
execute_command env r body s = elim (parse_command body) [
  | none ↦ (respond_status env status_error s).1
  | some (name, request) ↦
      if s.locked && (not (eq_bytes name (codes "PWORD")) && not (eq_bytes name (codes "LOCK")))
      then (respond_status env status_error s).1
      else (let (rc, s') = dispatch env r name request s in respond_for_error env rc s')
]

-- `sys_reboot` does not return: it is recorded, and what a run does behind it does not happen.
unfoldable pub reset_and_reboot : Env → Registry → Service → Service
reset_and_reboot env r s =
    let (rc, s') = factory_reset r s in
    let (_, s'') = respond_status env (if is_zero rc then status_ok else status_error) s' in
    if is_zero rc then record s'' { out = reboot ∷ s''.out } else s''

-- `execute`.
unfoldable pub execute : Env → Registry → List ℕ → Service → Service
unfolding execute_command reset_and_reboot
execute env r input s =
    if equals_ignore_case input (codes "AT")
    then (respond_status env status_ok s).1
    else if equals_ignore_case input (codes "AT?")
    then (write_all_help env r s).1
    else if equals_ignore_case input (codes "ATE")
    then (respond_status env status_ok (set_echo (not s.echo_enabled) s)).1
    else if equals_ignore_case input (codes "ATE?")
    then (respond_value env (some (codes "ATE: show or hide the AT command input")) s).1
    else if equals_ignore_case input (codes "ATZ")
    then record s { out = reboot ∷ s.out }
    else if equals_ignore_case input (codes "ATZ?")
    then (respond_value env (some (codes "ATZ: triggers a reset on the MCU.")) s).1
    else if equals_ignore_case input (codes "ATR")
    then reset_and_reboot env r s
    else if equals_ignore_case input (codes "ATR?")
    then (respond_value env (some (codes "ATR: restore default parameters")) s).1
    else if not (is_zero (casecmp_n input (codes "AT+") 3))
    then (respond_status env status_error s).1
    else execute_command env r (drop 3 input) s

-- An echo of the parser: only where it is configured and switched on.
abbrev pub echo : Env → List ℕ → Service → Service
echo env t s = if env.echo_configured && s.echo_enabled then (write_raw env (some t) s).1 else s

-- A backspace drops the last byte, if there is one.
abbrev pub drop_last : List ℕ → List ℕ
drop_last l = take (length l - 1) l

feed_backspace : Env → Parser → Service → ℤ × Parser × Service
feed_backspace env p s =
    if length p.line == 0
    then (pos 0, p, s)
    else (pos 0, record p { line = drop_last p.line }, echo env (8 ∷ 32 ∷ 8 ∷ []) s)

-- The end of a line, by CR or LF.
feed_line_end : Env → Registry → ℕ → Parser → Service → ℤ × Parser × Service
feed_line_end env r byte p s =
    let p' = record p { ignore_lf = byte == 13 } in
    let s' = if byte == 13 then echo env crlf s else s in
    if p.line_overflow
    then (let (rc, s'') = respond_status env test_param_overflow s' in
        (rc, record p' { line_overflow = false; line = [] }, s''))
    else if not (length p.line == 0)
    then (pos 0, record p' { line = [] }, execute env r p.line s')
    else (pos 0, p', s')

feed_text : Env → ℕ → Parser → Service → ℤ × Parser × Service
feed_text env byte p s =
    if ltb byte 32 || ltb 126 byte
    then (pos 0, p, s)
    else if leb (env.line_max - 1) (length p.line)
    then (fail Err.overflow, record p { line_overflow = true }, s)
    else (pos 0, record p { line = p.line ++ (byte ∷ []) }, echo env (byte ∷ []) s)

-- `rzi_at_parser_feed`. The buffer has at least one byte, so `line_max - 1` is exact.
unfoldable pub feed : Env → Registry → ℕ → Parser → Service → ℤ × Parser × Service
unfolding feed_backspace feed_line_end feed_text
feed env r byte p s =
    let p' = record p { ignore_lf = false } in
    if (byte == 10) && p.ignore_lf
    then (pos 0, p', s)
    else if (byte == 8) || (byte == 127)
    then feed_backspace env p' s
    else if (byte == 13) || (byte == 10)
    then feed_line_end env r byte p' s
    else feed_text env byte p' s

-- The bytes of a buffer, in order.
unfoldable pub feed_all : Env → Registry → List ℕ → Parser → Service → Parser × Service
unfolding feed
feed_all env r [] p s = (p, s)
feed_all env r (b ∷ bs) p s = let (_, p', s') = feed env r b p s in feed_all env r bs p' s'
