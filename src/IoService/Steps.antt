-- ===== src/IoService/Steps.antt =====
-- The interleavings of the loop with other threads and the kernel.
use xynet.Prelude.{ℕ, suc, true, false, if◌then◌else◌, ◌≡◌, List, [], ◌∷◌, ◌++◌}
use xynet.Operation.{AsyncOperationBase, Cqe}
use xynet.IoService.{EventFd, Completion, eventfd_poll, link_timeout, io, Loop, polling, executing}
use xynet.IoService.{schedule_remote, advance}

module _ {C : Type 0} where
  abbrev pub complete : Completion → Loop C → Loop C
  complete c l = record l { cq = l.cq ++ (c ∷ []) }

  -- Another thread in `schedule_remote`, up to the end of the lock.
  abbrev pub push : ℕ → Loop C → Loop C
  push op l =
      let (s, need) = schedule_remote op l.service in
      record l { service = s; writers = if need then suc l.writers else l.writers }

-- A step, with the operations that it hands to the service.
pub data Step {C : Type 0} (fd : EventFd C) : List ℕ → Loop C → Loop C → Type 0 where
  -- The loop's thread, where a callback that runs schedules the operations.
  own_step : (l : Loop C) → Step fd [] l (advance fd [] l)
  callback :
      (scheduled : List ℕ) (l : Loop C) (op : ℕ) (ops : List ℕ)
      → l.pending_list ≡ op ∷ ops
      → l.phase ≡ executing
      → Step fd scheduled l (advance fd scheduled l)
  remote_push : (op : ℕ) (l : Loop C) → Step fd (op ∷ []) l (push op l)
  -- `enable_remote_queue_eventfd`
  remote_write :
      (l : Loop C) (others : ℕ)
      → l.writers ≡ suc others
      → Step fd [] l (record l { writers = others; eventfd = fd.write l.eventfd })
  -- `request_stop`
  stop_write : (l : Loop C) → Step fd [] l (record l { eventfd = fd.write l.eventfd })
  poll_fires :
      (l : Loop C)
      → l.poll ≡ true
      → fd.readable l.eventfd ≡ true
      → Step fd [] l (complete eventfd_poll (record l { poll = false }))
  io_completes : (op : ℕ) (cqe : Cqe) (l : Loop C) → Step fd (op ∷ []) l (complete (io op cqe) l)
  timeout_ends : (l : Loop C) → Step fd [] l (complete link_timeout l)

-- The constructor of the service.
abbrev pub io_service : {C : Type 0} → C → (ℕ → AsyncOperationBase) → Loop C
io_service eventfd operations = record {
  service = record { m_local_queue = []; m_remote_queue = []; poll_sqe_submitted = false };
  operations = operations;
  eventfd = eventfd;
  poll = false;
  cq = [];
  phase = polling;
  cq_operation_bases = [];
  pending_list = [];
  writers = 0;
  executed = [];
}

-- Steps from the constructor on, with all the operations handed to the service.
pub data Reachable {C : Type 0} (fd : EventFd C) : List ℕ → Loop C → Type 0 where
  constructed :
      (eventfd : C) (operations : ℕ → AsyncOperationBase)
      → Reachable fd [] (io_service eventfd operations)
  stepped :
      {handed more : List ℕ} {l l' : Loop C}
      → Reachable fd handed l
      → Step fd more l l'
      → Reachable fd (handed ++ more) l'
