-- ===== src/Transfer/Calls.antt =====
-- The members of operation_send and operation_recv of socket/impl: what they construct.
use xynet.Prelude.{ℕ, Bool, true, false, List, [], ◌∷◌, Option, none}
use xynet.Prelude.Int.{ℤ}
use mathlib.Core.Option
use xynet.Buffer.{Range, buffer_sequence}
use xynet.Operation.{
  ErrorCode, Policy, TraitArgument, duration, error_code, async_operation, async_operation_traits,
}
use xynet.Transfer.{AsyncMsg, async_msg}

-- An operation, its policy and whether it is one of `recv_some`.
pub record Awaiter : Type 0 where
  pub policy : Policy
  pub enable_recv_some : Bool
  pub op : AsyncMsg

-- The awaiter under a policy, in the thread of an io_service.
abbrev pub under : Option ℕ → ErrorCode → ℤ → List Range → Bool → Policy → Awaiter
under thread_io_service callers socket ranges recv_some policy =
    let base = async_operation policy thread_io_service callers in
    record {
      policy = policy;
      enable_recv_some = recv_some;
      op = async_msg base socket (buffer_sequence ranges);
    }

-- `send`, by the arguments before the buffers; there is no constructor for what the overload with a
-- duration and an error code passes on.
pub send : Option ℕ → ErrorCode → ℤ → List Range → List TraitArgument → Option Awaiter
send thread_io_service callers socket ranges (duration ∷ error_code ∷ []) = none
send thread_io_service callers socket ranges arguments =
    Option.map (under thread_io_service callers socket ranges false)
      (async_operation_traits arguments)

pub recv : Option ℕ → ErrorCode → ℤ → List Range → List TraitArgument → Option Awaiter
recv thread_io_service callers socket ranges arguments =
    Option.map (under thread_io_service callers socket ranges false)
      (async_operation_traits arguments)

pub recv_some : Option ℕ → ErrorCode → ℤ → List Range → List TraitArgument → Option Awaiter
recv_some thread_io_service callers socket ranges arguments =
    Option.map (under thread_io_service callers socket ranges true)
      (async_operation_traits arguments)
