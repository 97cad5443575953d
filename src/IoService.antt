-- ===== src/IoService.antt =====
-- io_service of include/xynet/io_service.h: the event loop `run` and its queues. An operation is
-- the address of its `async_operation_base`. The loop's own thread takes small steps, so that
-- other threads and the kernel can come between them; a lock makes a step of what it guards.
-- The end of `run` at a stop request is left out.
pub mod Steps
pub mod Wakeup
pub mod Account
pub mod Round
pub mod Wakes
pub mod Run
pub mod Thread
mod Tests
use xynet.Prelude.{ℕ, suc, ◌+◌, ◌==◌, if◌then◌else◌, Bool, true, false, ◌≡◌, List, [], ◌∷◌, ◌++◌}
use xynet.Prelude.Int.{ℤ}
use xynet.Operation.{AsyncOperationBase, Cqe, set_value}

pub record IoService : Type 0 where
  pub m_local_queue : List ℕ
  pub m_remote_queue : List ℕ
  pub poll_sqe_submitted : Bool

-- What the code relies on of an eventfd: after a write it can be read.
pub record EventFd (C : Type 0) : Type 0 where
  pub write : C → C
  pub read : C → C
  pub readable : C → Bool
  pub readable-write : (c : C) → readable (write c) ≡ true

-- A completion queue entry, told apart by its `user_data`.
pub data Completion : Type 0 where
  eventfd_poll link_timeout : Completion
  io : ℕ → Cqe → Completion

-- Where the loop's thread is in the body of `run`: before the poll is submitted, in
-- `io_uring_submit_and_wait`, in the three calls that follow, and in the `for` loop of the last.
pub data Phase : Type 0 where
  polling waiting collecting taking starting executing : Phase

-- `poll` is whether the kernel has a poll request on the eventfd, `cq` the completion queue;
-- `cq_operation_bases` and `pending_list` are variables of the calls; `writers` counts the threads
-- in `schedule_remote` that have left the lock and are about to write to the eventfd; `executed` is
-- the history of the callbacks run.
pub record Loop (C : Type 0) : Type 0 where
  pub service : IoService
  pub operations : ℕ → AsyncOperationBase
  pub eventfd : C
  pub poll : Bool
  pub cq : List Completion
  pub phase : Phase
  pub cq_operation_bases : List ℕ
  pub pending_list : List ℕ
  pub writers : ℕ
  pub executed : List ℕ

abbrev pub schedule_local : List ℕ → IoService → IoService
schedule_local ops s = record s { m_local_queue = s.m_local_queue ++ ops }

-- The part of `schedule_remote` under the lock, and whether the eventfd is to be written.
abbrev pub is_empty : List ℕ → Bool
is_empty [] = true
is_empty (op ∷ ops) = false

abbrev pub schedule_remote : ℕ → IoService → IoService × Bool
schedule_remote op s =
    (record s { m_remote_queue = s.m_remote_queue ++ (op ∷ []) }, is_empty s.m_remote_queue)

-- `operations` with the value of one of them set.
abbrev pub put_value : ℕ → Cqe → (ℕ → AsyncOperationBase) → ℕ → AsyncOperationBase
put_value op cqe operations other =
    if op == other then set_value cqe.res cqe.flags (operations op) else operations other

module _ {C : Type 0} (fd : EventFd C) where
  abbrev pub submit_eventfd_poll_sqe : Loop C → Loop C
  submit_eventfd_poll_sqe l =
      if l.service.poll_sqe_submitted
      then l
      else record l { service = record (l.service) { poll_sqe_submitted = true }; poll = true }

  -- One entry of the loop of `get_completion_queue_operation_bases`.
  abbrev pub on_completion : Completion → Loop C → Loop C
  on_completion eventfd_poll l = record l {
    service = record (l.service) { poll_sqe_submitted = false };
    eventfd = fd.read l.eventfd;
  }
  on_completion link_timeout l = l
  on_completion (io op cqe) l = record l {
    operations = put_value op cqe l.operations;
    cq_operation_bases = l.cq_operation_bases ++ (op ∷ []);
  }

  abbrev pub collect : List Completion → Loop C → Loop C
  collect [] l = record l {
    service = schedule_local l.cq_operation_bases l.service;
    cq_operation_bases = [];
    phase = taking;
  }
  collect (c ∷ cs) l = on_completion c (record l { cq = cs })

  -- `get_remote_queue_operation_bases`
  abbrev pub take_remote : Loop C → Loop C
  take_remote l =
      let s = l.service in
      record l {
        service = schedule_local s.m_remote_queue (record s { m_remote_queue = [] });
        phase = starting;
      }

  -- `execute_pending_local`: the swap, then a callback at a time, which may schedule operations on
  -- its own thread.
  abbrev pub start_pending : Loop C → Loop C
  start_pending l = record l {
    pending_list = l.service.m_local_queue;
    service = record (l.service) { m_local_queue = [] };
    phase = executing;
  }

  abbrev pub execute : List ℕ → List ℕ → Loop C → Loop C
  execute scheduled [] l = record l { phase = polling }
  execute scheduled (op ∷ ops) l = record l {
    pending_list = ops;
    executed = l.executed ++ (op ∷ []);
    service = schedule_local scheduled l.service;
  }

  -- The next step of the loop's thread, where a callback schedules the operations `scheduled`.
  pub advance_from : Phase → List ℕ → Loop C → Loop C
  advance_from polling scheduled l = record (submit_eventfd_poll_sqe l) { phase = waiting }
  advance_from waiting scheduled l = record l { phase = collecting }
  advance_from collecting scheduled l = collect l.cq l
  advance_from taking scheduled l = take_remote l
  advance_from starting scheduled l = start_pending l
  advance_from executing scheduled l = execute scheduled l.pending_list l

  pub advance : List ℕ → Loop C → Loop C
  unfolding advance_from
  advance scheduled l = advance_from l.phase scheduled l
