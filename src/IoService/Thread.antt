-- ===== src/IoService/Thread.antt =====
-- An io_service and its thread: the constructor and the destructor, `schedule_impl` and
-- `request_stop`. A service is a number, its address; `thread_io_service` is the variable of the
-- thread.
use xynet.Prelude.{
  ℕ, ◌+◌, ◌≡◌, refl, arith, Bool, true, false, ◌||◌, ◌==◌, if◌then◌else◌, List, [], ◌∷◌, ◌++◌,
  Option, none, some, count, count-append,
}
use xynet.Prelude.Int.{ℤ, pos, negsuc}
use xynet.Operation.{ErrorCode, Policy, async_operation, await_ready}
use xynet.IoService.{EventFd, Loop, schedule_local}
use xynet.IoService.Steps.{push}

-- The members of a service that its constructor sets from system calls.
pub record Service : Type 0 where
  pub this : ℕ
  pub m_remote_queue_eventfd : ℤ
  pub ma_is_stop_requested : Bool

abbrev registered : ℕ → Option ℕ → Option ℕ
registered this none = some this
registered this (some other) = some other

abbrev eventfd_of : ℤ → ℤ
eventfd_of (pos fd) = pos fd
eventfd_of (negsuc k) = negsuc 0

-- The constructor, with what `::eventfd` returns, and the variable of the thread.
unfoldable pub construct : ℕ → ℤ → Option ℕ → Service × Option ℕ
construct this eventfd_ret thread_io_service = (
  record {
    this = this;
    m_remote_queue_eventfd = eventfd_of eventfd_ret;
    ma_is_stop_requested = false;
  },
  registered this thread_io_service,
)

-- The destructor: the variable of the thread after it, and what it closes.
unfoldable pub destruct : Service → Option ℕ × List ℤ
destruct s = (none, s.m_remote_queue_eventfd ∷ [])

abbrev pub is_same_io_service_thread : ℕ → Option ℕ → Bool
is_same_io_service_thread this none = false
is_same_io_service_thread this (some s) = this == s

-- `none` is a null pointer.
unfoldable pub schedule_impl : {C : Type 0} → ℕ → Option ℕ → Option ℕ → Loop C → Loop C
schedule_impl this thread_io_service none l = l
schedule_impl this thread_io_service (some op) l =
    if is_same_io_service_thread this thread_io_service
    then record l { service = schedule_local (op ∷ []) l.service }
    else push op l

-- `request_stop`; `fails` is whether `compare_exchange_weak` fails though it need not.
unfoldable pub request_stop : {C : Type 0} → EventFd C → Bool → Service × C → Service × C
request_stop fd fails (s, eventfd) =
    if s.ma_is_stop_requested || fails
    then (s, eventfd)
    else (record s { ma_is_stop_requested = true }, fd.write eventfd)

unfoldable pub request_stops : {C : Type 0} → EventFd C → List Bool → Service × C → Service × C
unfolding request_stop
request_stops fd [] s = s
request_stops fd (fails ∷ more) s = request_stops fd more (request_stop fd fails s)

abbrev all_fail : List Bool → Bool
all_fail [] = true
all_fail (fails ∷ more) = if fails then all_fail more else false

abbrev after_stops : {C : Type 0} → EventFd C → Bool → Service × C → Service × C
after_stops fd none_works (s, eventfd) =
    if s.ma_is_stop_requested || none_works
    then (s, eventfd)
    else (record s { ma_is_stop_requested = true }, fd.write eventfd)

-- However often it is called, and whatever fails of itself, `request_stop` writes to the eventfd
-- once: where no stop was requested before and one of the calls does not fail, and then the stop is
-- requested.
request_stops-once :
    {C : Type 0} (fd : EventFd C) (calls : List Bool) (s : Service) (eventfd : C)
    → request_stops fd calls (s, eventfd) ≡ after_stops fd (all_fail calls) (s, eventfd)
unfolding request_stops
request_stops-once fd [] s eventfd = ground arith
request_stops-once fd (true ∷ calls) s eventfd =
    ground (arith, request_stops-once fd calls s eventfd)
request_stops-once fd (false ∷ calls) s eventfd = ground (
  arith,
  request_stops-once fd calls s eventfd,
  request_stops-once fd calls (record s { ma_is_stop_requested = true }) (fd.write eventfd),
)

-- An operation that is scheduled from any thread is queued once more, and no other is.
schedule_impl-queued :
    {C : Type 0} (this op other : ℕ) (thread_io_service : Option ℕ) (l : Loop C)
    → let l' = schedule_impl this thread_io_service (some op) l in
      count other (l'.service.m_local_queue ++ l'.service.m_remote_queue)
      ≡ count other (l.service.m_local_queue ++ l.service.m_remote_queue) + count other (op ∷ [])
unfolding schedule_impl
schedule_impl-queued this op other thread_io_service l = ground (
  arith,
  count-append other l.service.m_local_queue l.service.m_remote_queue,
  count-append other (l.service.m_local_queue ++ (op ∷ [])) l.service.m_remote_queue,
  count-append other l.service.m_local_queue (op ∷ []),
  count-append other l.service.m_local_queue (l.service.m_remote_queue ++ (op ∷ [])),
  count-append other l.service.m_remote_queue (op ∷ []),
)

-- A second service on a thread that has one is not registered, and its end takes the first one's
-- registration away: an operation of the thread that follows has no service, and one whose
-- `initial_check` holds is submitted through a null pointer.
second_service-orphans :
    (first second : ℕ) (eventfd_ret eventfd_ret' : ℤ) (policy : Policy) (callers : ErrorCode)
    → let (s, registered_first) = construct first eventfd_ret none in
      let (s', registered_second) = construct second eventfd_ret' registered_first in
      let (after, closed) = destruct s' in
      let op = async_operation policy after callers in
      (registered_second ≡ some first) × (op.mp_service ≡ none) × (await_ready op true ≡ false)
unfolding construct destruct async_operation await_ready
second_service-orphans first second eventfd_ret eventfd_ret' policy callers = (refl, refl, refl)
