-- ===== src/Serving/Finish.antt =====
-- The end of a session of example/simple and example/pingpong: `shutdown`, `close`, and the end of
-- the socket's life, with every descriptor that is closed on the way.
use xynet.Prelude.{
  ℕ, zero, suc, ◌≡◌, ◌≢◌, ◌⊎◌, refl, arith, Bool, true, false, not, if◌then◌else◌, List, [], ◌∷◌,
  ◌++◌, Option, none, some, replicate,
}
use xynet.Prelude.Int.{ℤ, pos, negsuc}
use xynet.Operation.{Cqe, async_operation, no_error, set_value, is_error, is_negative}
use xynet.Transfer.{resume, submit}
use xynet.Serving.{
  LoopEnd, in_recv, in_send, recv_threw, send_threw, throwing, EchoTurn, Echoed, echo_loop,
}
use xynet.Socket.{
  Socket, Answer, Outcome, returned, thrown, destroy, close__, or_throw, sync_operation,
}
use xynet.Socket.Sync.{shutdown_throwing, shutdown}
use xynet.Socket.Async.{AsyncClose, on_close_completed, close_update_result}

-- `close`, against a kernel that answers its submissions; each answer comes with what `::close`
-- would return. `none` is a close that has not ended.
unfoldable pub close_run : List (Cqe × ℤ) → AsyncClose → Option AsyncClose
close_run [] op = none
close_run ((cqe, close_ret) ∷ answers) op =
    let (op', next) = on_close_completed cqe close_ret op in
    elim next [ resume ↦ some op' | submit ↦ close_run answers op' ]

abbrev pub async_close : ℕ → Socket → AsyncClose
async_close service s = record {
  base = async_operation throwing (some service) no_error;
  m_socket = s;
  closed = [];
}

-- What has been closed when the `close` has ended and the socket is destroyed; the exception of a
-- close is caught.
abbrev closed_after : Option AsyncClose → Option (List ℤ)
closed_after none = none
closed_after (some op) = some (op.closed ++ destroy op.m_socket)

abbrev after_shutdown : ℕ → List (Cqe × ℤ) → Outcome Socket → Option (List ℤ)
after_shutdown service answers (returned s) =
    closed_after (close_run answers (async_close service s))
after_shutdown service answers (thrown s error) = some (destroy s)

-- The last `try` of `echo`, and the end of the coroutine.
unfoldable pub finish : ℕ → Answer → List (Cqe × ℤ) → Socket → Option (List ℤ)
finish service shut answers s = after_shutdown service answers (shutdown_throwing shut s)

-- How the stream of the peer ends: `some true` at its end, `some false` with an error.
abbrev pub stream_end : List (Cqe × ℤ) → Option Bool
stream_end [] = none
stream_end ((cqe, close_ret) ∷ answers) = elim cqe.res [
  | pos zero ↦ some true
  | pos (suc n) ↦ stream_end answers
  | negsuc k ↦ some false
]

abbrev pub closes : ℤ → Option Bool → Option (List ℤ)
closes fd none = none
closes fd (some true) = some (fd ∷ fd ∷ [])
closes fd (some false) = some (fd ∷ [])

close_run-closes :
    (fd : ℕ) (answers : List (Cqe × ℤ)) (op : AsyncClose)
    → is_error op.base.error ≡ false
    → op.m_socket.m_fd ≡ pos fd
    → op.closed ≡ []
    → closed_after (close_run answers op) ≡ closes (pos fd) (stream_end answers)
unfolding close_run on_close_completed close_update_result set_value destroy close__
close_run-closes fd [] op clear e fresh = refl
close_run-closes fd ((cqe, close_ret) ∷ answers) op clear e fresh =
    let read = record op { base = set_value cqe.res cqe.flags op.base } in
    ground (arith, close_run-closes fd answers read)

abbrev pub is_success : Answer → Bool
is_success answer = not (is_negative answer.ret)

-- What has been closed when a session on an open socket has ended: where `shutdown` throws, the
-- descriptor, once; else nothing as long as the peer sends data, the descriptor once if the stream
-- ends with an error, and twice if it ends.
pub finish-closes :
    (service fd : ℕ) (shut : Answer) (answers : List (Cqe × ℤ)) (s : Socket)
    → s.m_fd ≡ pos fd
    → is_success shut ≡ true ⊎ shut.errno ≢ 0
    → finish service shut answers s
      ≡ closes (pos fd) (if is_success shut then stream_end answers else some false)
unfolding finish shutdown_throwing shutdown sync_operation or_throw destroy close__ async_operation
finish-closes service fd shut answers s e set =
    ground (arith, close_run-closes fd answers (async_close service s))

-- Whether the loop of a session has ended.
abbrev pub has_thrown : LoopEnd → Bool
has_thrown in_recv = false
has_thrown in_send = false
has_thrown recv_threw = true
has_thrown send_threw = true

unfoldable pub zeros : ℕ → List ℕ
zeros n = replicate n 0

-- A session of `echo` or `pingpong_server` over a buffer of `size` bytes, with what it closes.
abbrev pub session :
    ℕ → Socket → ℕ → List EchoTurn → Answer → List (Cqe × ℤ) → Echoed × Option (List ℤ)
session service s size turns shut answers =
    let e = echo_loop service s.m_fd size turns (zeros size) in
    (e, if has_thrown e.end then finish service shut answers s else none)

unfoldable pub echo :
    ℕ → Socket → List EchoTurn → Answer → List (Cqe × ℤ) → Echoed × Option (List ℤ)
echo service s turns shut answers = session service s 4096 turns shut answers

-- `PINGPONG_BUFFER_SIZE` is a `size_t` that is read from an `int`.
unfoldable pub pingpong_server :
    ℕ → ℕ → Socket → List EchoTurn → Answer → List (Cqe × ℤ) → Echoed × Option (List ℤ)
pingpong_server size service s turns shut answers = session service s size turns shut answers
