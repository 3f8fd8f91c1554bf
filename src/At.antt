-- ===== src/At.antt =====
-- src/at: the RUI3-compatible AT service. This file has the types that its parts share
-- (include/rzi/at/at.h, src/at/at_priv.h) and the state of src/at/at.c.
-- `Output` and `Input` for at.c, `Registry` for at_registry.c and `Parser` for at_parser.c are the
-- children. The start of the service is not modelled.
pub mod Output
pub mod Registry
pub mod Parser
pub mod Input
use rzi.Prelude.{ℕ, Bool, List, ℤ, Option}

-- `enum rzi_at_operation`.
pub data Operation : Type 0 where
  op_run op_help op_read op_write : Operation

abbrev pub op_value : Operation → ℕ
op_value op_run = 0
op_value op_help = 1
op_value op_read = 2
op_value op_write = 3

-- `enum rzi_at_status`.
pub data Status : Type 0 where
  status_ok status_error param_error busy_error no_network_joined test_param_overflow : Status

-- `struct rzi_at_request`; the argument is NULL unless the operation is a write.
pub record Request : Type 0 where
  pub operation : Operation
  pub argument : Option (List ℕ)

-- What the service has done to the outside: a fragment given to the transport, or a reboot.
pub data Out : Type 0 where
  text : List ℕ → Out
  reboot : Out

-- The statics of at.c. `out` has the latest first.
pub record Service : Type 0 where
  pub started : Bool
  pub locked : Bool
  pub echo_enabled : Bool
  pub password : List ℕ
  pub out : List Out

-- `struct rzi_at_command`; a handler acts on the service, and its `user_data` is in its closure.
pub record Command : Type 0 where
  pub name : Option (List ℕ)
  pub help : Option (List ℕ)
  pub allowed_operations : ℕ
  pub handler : Option (Request → Service → ℤ × Service)

-- `struct rzi_at_extension`.
pub record Extension : Type 0 where
  pub start : Option (Service → ℤ × Service)
  pub process : Option (Service → Service)
  pub factory_reset : Option (Service → ℤ × Service)

-- The build's configuration, and the transport's `write`, whose result may depend on all that
-- was written before.
pub record Env : Type 0 where
  pub line_max : ℕ
  pub tx_buffer_size : ℕ
  pub max_commands : ℕ
  pub max_extensions : ℕ
  pub echo_configured : Bool
  pub io_write : List Out → List ℕ → ℤ
