-- ===== src/Connection/Served.antt =====
-- A connection of example/websocket/websocket_chat.cpp from the handshake to its end, with every
-- descriptor that is closed on the way.
use xynet.Prelude.{
  ℕ, ◌≡◌, ◌≢◌, refl, arith, ◌∙◌, ap, inr, Bool, false, if◌then◌else◌, List, [], ◌++◌, Option, none,
  some,
}
use mathlib.Core.List.{append-nil}
use xynet.Prelude.Int.{ℤ, pos}
use xynet.Operation.{Cqe}
use xynet.Socket.{Socket, Answer, move_fd, destroy, close__, sync_operation, or_throw}
use xynet.Socket.Sync.{shutdown_throwing, shutdown}
use xynet.Serving.Finish.{finish, closes, stream_end, is_success, finish-closes}
use xynet.Connection.{Shaken, recv_failed, bad_request_thrown, returned}

-- The answers that the end of a socket meets.
pub record Ending : Type 0 where
  pub shut : Answer
  pub answers : List (Cqe × ℤ)

abbrev both : Option (List ℤ) → Option (List ℤ) → Option (List ℤ)
both none later = none
both (some fds) none = none
both (some fds) (some later) = some (fds ++ later)

-- The coroutine that `main` starts for each peer, where the session has ended: `stop` and the end of
-- the session close the socket that was moved into it, and the last `try` works on what the move
-- has left. Without a session it works on the socket.
unfoldable pub serve_peer : ℕ → Shaken → Ending → Ending → Socket → Option (List ℤ)
serve_peer service (returned response) session last s =
    both (finish service session.shut session.answers s)
      (finish service last.shut last.answers (move_fd s).1)
serve_peer service recv_failed session last s = finish service last.shut last.answers s
serve_peer service bad_request_thrown session last s = finish service last.shut last.answers s

abbrev pub closing : Ending → Option Bool
closing e = if is_success e.shut then stream_end e.answers else some false

finish_moved :
    (service : ℕ) (shut : Answer) (answers : List (Cqe × ℤ)) (s : Socket)
    → is_success shut ≡ false
    → shut.errno ≢ 0
    → finish service shut answers (move_fd s).1 ≡ some []
unfolding finish shutdown_throwing shutdown sync_operation or_throw destroy close__ move_fd
finish_moved service shut answers s fails set = ground arith

both-nothing : (o : Option (List ℤ)) → both o (some []) ≡ o
both-nothing none = refl
both-nothing (some fds) = ap some (append-nil fds)

-- After a session, where `shutdown` fails on no descriptor, and sets `errno` where it fails: the end
-- of the session closes the descriptor once, or twice where the stream of the peer ends after a
-- `shutdown` that succeeds, and the end of the connection closes nothing more.
serve_peer-closes :
    (service fd : ℕ) (response : Option (List ℕ)) (session last : Ending) (s : Socket)
    → s.m_fd ≡ pos fd
    → session.shut.errno ≢ 0
    → last.shut.errno ≢ 0
    → is_success last.shut ≡ false
    → serve_peer service (returned response) session last s ≡ closes (pos fd) (closing session)
unfolding serve_peer
serve_peer-closes service fd response session last s e set set' fails =
    ap (both (finish service session.shut session.answers s))
      (finish_moved service last.shut last.answers s fails set')
    ∙ both-nothing (finish service session.shut session.answers s)
    ∙ finish-closes service fd session.shut session.answers s e (inr set)
