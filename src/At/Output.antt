-- ===== src/At/Output.antt =====
-- src/at/at.c: flags, password and output.
use rzi.Prelude.{
  ℕ, ◌+◌, ◌-◌, Bool, false, not, ◌||◌, List, [], ◌∷◌, ◌++◌, ℤ, pos, Option, none, some, length,
  codes, eq_bytes, ltb, leb, ◌==◌, if◌then◌else◌,
}
use rzi.Err.{Err, fail}
use rzi.At.{
  Status, status_ok, status_error, param_error, busy_error, no_network_joined, test_param_overflow,
  text, Service, Env,
}

abbrev pub crlf : List ℕ
crlf = 13 ∷ 10 ∷ []

unfoldable pub set_locked : Bool → Service → Service
set_locked enable s = record s { locked = enable }

unfoldable pub set_echo : Bool → Service → Service
set_echo enable s = record s { echo_enabled = enable }

unfoldable pub password_matches : Option (List ℕ) → Service → Bool
password_matches none s = false
password_matches (some value) s = eq_bytes s.password value

unfoldable pub set_password : Option (List ℕ) → Service → ℤ × Service
set_password none s = (fail Err.invalid, s)
set_password (some value) s =
    if (length value == 0) || ltb 8 (length value)
    then (fail Err.invalid, s)
    else (pos 0, record s { password = value })

-- `write_all`: the transport gets the whole text.
unfoldable pub write_all : Env → List ℕ → Service → ℤ × Service
write_all env t s = (env.io_write s.out t, record s { out = text t ∷ s.out })

unfoldable pub write_raw : Env → Option (List ℕ) → Service → ℤ × Service
unfolding write_all
write_raw env none s = (fail Err.invalid, s)
write_raw env (some t) s = if not s.started then (fail Err.invalid, s) else write_all env t s

abbrev pub status_name : Status → List ℕ
status_name status_ok = codes "OK"
status_name status_error = codes "AT_ERROR"
status_name param_error = codes "AT_PARAM_ERROR"
status_name busy_error = codes "AT_BUSY_ERROR"
status_name no_network_joined = codes "AT_NO_NETWORK_JOINED"
status_name test_param_overflow = codes "AT_TEST_PARAM_OVERFLOW"

-- The buffer of 48 bytes holds every name between its line ends.
unfoldable pub respond_status : Env → Status → Service → ℤ × Service
unfolding write_all
respond_status env status s =
    if not s.started
    then (fail Err.invalid, s)
    else write_all env (crlf ++ status_name status ++ crlf) s

-- `write_formatted`; `body` is the text that `format` and its arguments make.
unfoldable pub write_formatted : Env → List ℕ → List ℕ → List ℕ → Service → ℤ × Service
unfolding write_all
write_formatted env prefix suffix body s =
    let head = length prefix in
    let used = head + length body in
    if leb env.tx_buffer_size head
    then (fail Err.overflow, s)
    else if leb (env.tx_buffer_size - head) (length body)
    then (fail Err.overflow, s)
    else if leb env.tx_buffer_size (used + length suffix)
    then (fail Err.overflow, s)
    else write_all env (prefix ++ body ++ suffix) s

unfoldable pub respond_value : Env → Option (List ℕ) → Service → ℤ × Service
unfolding write_formatted
respond_value env none s = (fail Err.invalid, s)
respond_value env (some body) s =
    if not s.started
    then (fail Err.invalid, s)
    else write_formatted env crlf (crlf ++ codes "OK" ++ crlf) body s

unfoldable pub publish_event : Env → Option (List ℕ) → Service → ℤ × Service
unfolding write_formatted
publish_event env none s = (fail Err.invalid, s)
publish_event env (some body) s =
    if not s.started
    then (fail Err.invalid, s)
    else write_formatted env (crlf ++ codes "+EVT:") crlf body s
