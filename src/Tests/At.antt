-- ===== src/Tests/At.antt =====
-- The AT service with two commands and an open transport.
use rzi.Prelude.{
  take, drop, ◌-◌, ◌++◌, false, ℕ, ◌≡◌, ◌↔◌, inl, ◌+◌, ◌<◌, ◌≤◌, refl, true, false, List, [], ◌∷◌,
  ◌++◌, map, ℤ, pos, Option, none, some, length, codes, is_zero, if◌then◌else◌, arith,
}
use rzi.Err.{Err, fail}
use rzi.At.{
  Operation, op_run, op_help, op_read, op_write, Request, Out, Service, Command, Extension, Env,
  status_error, test_param_overflow,
}
use rzi.At.Output.{respond_status}
use rzi.At.Registry.{Registry, empty, register, check_from, perform, has_name}
use rzi.At.Registry.Register.{IsWellFormed, AllValid, Distinct, register_iff, register-IsWellFormed}
use rzi.At.Parser.{
  Parser, reset, to_upper, parse_command, execute, respond_for_error, feed, feed_all,
}
use rzi.At.Input.{RingBuffer, Input, process_input}
use rzi.At.Input.Drain.{IsQueue, process_input-feeds}
use rzi.At.Parser.Lines.{serve_lines, stream, feed_all-InBounds, feed_all-stream}
use rzi.At.Parser.Commands.{print_request, parse_command-print, execute-registered}

abbrev env : Env
env = record {
  line_max = 16;
  tx_buffer_size = 64;
  max_commands = 4;
  max_extensions = 2;
  echo_configured = false;
  io_write = λ out t. pos 0;
}

abbrev up : Service
up = record { started = true; locked = false; echo_enabled = true; password = []; out = [] }

abbrev argument_or_empty : Option (List ℕ) → List ℕ
argument_or_empty none = []
argument_or_empty (some a) = a

abbrev store_password : Request → Service → ℤ × Service
store_password q s = (pos 0, record s { password = argument_or_empty q.argument })

abbrev pword : Command
pword = record {
  name = some (codes "PWORD");
  help = none;
  allowed_operations = 8;
  handler = some store_password;
}

abbrev ver : Command
ver = record {
  name = some (codes "VER");
  help = some (codes "version");
  allowed_operations = 5;
  handler = some (λ q s. (fail Err.busy, s));
}

abbrev commands : List Command
commands = pword ∷ ver ∷ []

abbrev table : Registry
table = (register env (some commands) 2 empty).1

table_commands : table.registered ≡ commands
unfolding register check_from has_name empty
table_commands = refl

empty-IsWellFormed : IsWellFormed env empty
unfolding empty
empty-IsWellFormed = record { valid = tt; distinct = tt; fits = omega arith }

table-IsWellFormed : IsWellFormed env table
unfolding empty
table-IsWellFormed =
    register-IsWellFormed env (some commands) 2 empty empty-IsWellFormed (omega arith)

register_iff_example :
    let (rc, r') = register env (some commands) 2 empty in
    ((rc ≡ pos 0) ↔ (
      (empty.sealed ≡ false)
      × (length empty.registered + 2 ≤ 4)
      × AllValid commands
      × Distinct (empty.registered ++ commands)))
    × (r' ≡ (
        if is_zero rc then record empty { registered = empty.registered ++ commands } else empty))
unfolding empty
register_iff_example = register_iff env empty commands tt (omega arith)

abbrev extensions : Registry
extensions = record {
  registered = [];
  extensions =
      record { start = none; process = none; factory_reset = some (λ s. (fail Err.io, s)) }
      ∷ record {
        start = none;
        process = none;
        factory_reset = some (λ s. (pos 0, record s { password = [] }));
      }
      ∷ [];
  sealed = true;
}

abbrev typed : Parser
typed = record { line = codes "AT"; line_overflow = false; ignore_lf = true }

-- Twenty bytes for a buffer of 16, a backspace and the start of a line.
abbrev many : List ℕ
many = codes "AT+PWORD=0123456789A" ++ (8 ∷ 13 ∷ 10 ∷ codes "AT")

feed_all-InBounds_example : length (feed_all env table many reset up).0.line < 16
feed_all-InBounds_example = feed_all-InBounds env table many up (omega arith)

-- A command, an empty line and a line that is too long.
abbrev lines : List (List ℕ)
lines = codes "AT+VER" ∷ [] ∷ codes "AT+PWORD=123456789" ∷ []

feed_all-stream_example :
    feed_all env table (stream lines) reset up ≡ (reset, serve_lines env table lines up)
feed_all-stream_example = feed_all-stream env table refl lines up (omega arith) (ground arith)

parse_command-print_example :
    parse_command (codes "pWord" ++ print_request op_write (some (codes "12")))
    ≡ some (
      map to_upper (codes "pWord"),
      record { operation = op_write; argument = some (codes "12") },
    )
unfolding rzi.At.Parser.contains
parse_command-print_example =
    parse_command-print (codes "pWord") op_write (some (codes "12")) (λ e. cc) (ground arith)
      (ground arith)

execute-registered_example :
    let (rc, s') = perform env ver (record { operation = op_run; argument = none }) up in
    execute env table (97 ∷ 84 ∷ b'+' ∷ (codes "ver" ++ print_request op_run none)) up
    ≡ respond_for_error env rc s'
execute-registered_example =
    execute-registered env table 97 84 (codes "ver") op_run none up (pword ∷ []) ver []
      table-IsWellFormed (omega arith, omega arith) (λ e. cc) (ground arith) tt table_commands refl
      (inl refl)

abbrev locked_up : Service
locked_up = record up { locked = true }

parsed_ver :
    parse_command (codes "VER=?")
    ≡ some (codes "VER", record { operation = op_read; argument = none })
parsed_ver = parse_command-print (codes "VER") op_read none (λ e. cc) (ground arith) tt

-- A ring of 8 bytes.
abbrev small_ring : RingBuffer
small_ring = record {
  Ring = List ℕ;
  ring_buf_put = λ l ring. (length (take (8 - length ring) l), ring ++ take (8 - length ring) l);
  ring_buf_get = λ n ring. (take n ring, drop n ring);
}

small_ring-IsQueue : IsQueue small_ring (λ ring. ring)
small_ring-IsQueue = record { gets = λ n ring. refl; leaves = λ n ring. refl }

abbrev full : Input small_ring
full = record { rx_ring = codes "AT+VER\r\n"; rx_overflow = true }

process_input-feeds_example :
    let (i', p', s') = process_input small_ring env table 9 full typed up in
    (i'.rx_ring ≡ [])
    × (i'.rx_overflow ≡ false)
    × ((p', s')
        ≡ feed_all env table full.rx_ring reset (respond_status env test_param_overflow up).1)
process_input-feeds_example =
    process_input-feeds small_ring (λ ring. ring) small_ring-IsQueue env table 9 full typed up
      (omega arith)
