-- ===== src/Operation.antt =====
-- async_operation_base.h, detail/async_operation.h and detail/error_code.h: what every
-- asynchronous operation keeps, and how it is awaited. An io_service and a coroutine are numbers.
use xynet.Prelude.{ℕ, suc, ◌==◌, if◌then◌else◌, Bool, true, false, not, ◌&&◌, List, [], ◌∷◌}
use xynet.Prelude.{Option, none, some}
use xynet.Prelude.Int.{ℤ, pos, negsuc}
use Prim.Native.String.{String}

pub data ErrorCategory : Type 0 where
  system_category xynet_category : ErrorCategory

pub record ErrorCode : Type 0 where
  pub value : ℕ
  pub category : ErrorCategory

-- `std::error_code{}` and the conversion to `bool`.
abbrev pub no_error : ErrorCode
no_error = record { value = 0; category = system_category }

abbrev pub is_error : ErrorCode → Bool
is_error e = not (e.value == 0)

abbrev pub system_error : ℕ → ErrorCode
system_error n = record { value = n; category = system_category }

pub data XynetError : Type 0 where
  eof no_service : XynetError

abbrev pub error_value : XynetError → ℕ
error_value eof = 1
error_value no_service = 2

unfoldable pub make_error_code : XynetError → ErrorCode
make_error_code e = record { value = error_value e; category = xynet_category }

-- The name of `xynet_category`; that of the other is the C++ library's.
abbrev category_name : String
category_name = "xynet"

-- `xynet_error_category_impl::message`
pub message : ℕ → String
message condition =
    if condition == error_value eof
    then "connection read eof."
    else if condition == error_value no_service
    then "no io_service on current thread."
    else "unknown error"

-- `error` is the code that `mp_error` points at, the operation's own or the caller's.
pub record AsyncOperationBase : Type 0 where
  pub m_res : ℤ
  pub m_flags : ℤ
  pub error : ErrorCode
  pub mp_service : Option ℕ
  pub awaiting_coroutine : Option ℕ

-- What a completion queue entry says of an operation.
pub record Cqe : Type 0 where
  pub res : ℤ
  pub flags : ℤ

pub record Policy : Type 0 where
  pub enable_timeout : Bool
  pub enable_error_code : Bool

-- The arguments of an operation that choose its policy.
pub data TraitArgument : Type 0 where
  duration error_code : TraitArgument

-- `async_operation_traits`; a list that has no specialisation gives none.
unfoldable pub async_operation_traits : List TraitArgument → Option Policy
async_operation_traits [] = some (record { enable_timeout = false; enable_error_code = false })
async_operation_traits (duration ∷ []) =
    some (record { enable_timeout = true; enable_error_code = false })
async_operation_traits (error_code ∷ []) =
    some (record { enable_timeout = false; enable_error_code = true })
async_operation_traits (_ ∷ _ ∷ []) =
    some (record { enable_timeout = true; enable_error_code = true })
async_operation_traits (_ ∷ _ ∷ _ ∷ _) = none

-- The constructors of `async_operation`: with an error code of the caller the operation uses that
-- code as it stands, else one of its own, which is clear.
unfoldable pub async_operation : Policy → Option ℕ → ErrorCode → AsyncOperationBase
async_operation policy thread_io_service callers = record {
  m_res = pos 0;
  m_flags = pos 0;
  error = if policy.enable_error_code then callers else no_error;
  mp_service = thread_io_service;
  awaiting_coroutine = none;
}

abbrev pub is_negative : ℤ → Bool
is_negative (pos n) = false
is_negative (negsuc n) = true

abbrev pub error_of : ℤ → ErrorCode → ErrorCode
error_of (pos n) old = old
error_of (negsuc n) old = system_error (suc n)

-- A negative result is the negated `errno`; another leaves the error code alone.
unfoldable pub set_value : ℤ → ℤ → AsyncOperationBase → AsyncOperationBase
set_value res flags op = record op { m_res = res; m_flags = flags; error = error_of res op.error }

pub set_awaiting_coroutine : ℕ → AsyncOperationBase → AsyncOperationBase
set_awaiting_coroutine coroutine op = record op { awaiting_coroutine = some coroutine }

abbrev has_service : Option ℕ → Bool
has_service none = false
has_service (some s) = true

pub no_error_in_result : AsyncOperationBase → Bool
no_error_in_result op = has_service op.mp_service && not (is_negative op.m_res)

-- `await_ready`, with the operation's `initial_check`.
unfoldable pub await_ready : AsyncOperationBase → Bool → Bool
await_ready op initial_check = not (has_service op.mp_service) && not initial_check
