-- ===== src/Windows/Completions.antt =====
-- src/reactor/msvc/msvc_io_poller.cpp: one `poll` moves the messages of finished operations into the
-- ring. The completion port is a parameter: what GetQueuedCompletionStatus leaves and returns, with
-- what GetLastError tells then. `process` of an AIOMessage, that of FiberIOMessage, does nothing.
pub mod Report
pub mod Dequeue
pub mod Exact
mod Tests
use Prim.Native.Nat.{min}
use dumbo.Base.{
  ℕ, zero, suc, ℤ, pos, negsuc, Option, none, some, Bool, true, ltb, ◌==◌, ◌||◌, if◌then◌else◌,
  List,
}
use dumbo.Base.Results.{Result, ok, err, terminated, ◌>>=◌, checked}
use dumbo.Ring.{Ring, capacity, push_front}
use dumbo.Windows.{
  Overlapped, wait_timeout, error_abandoned_wait_0, create_completion_port, close_handle, Win, Os,
  sys, terminate,
}

module _ (win : Win) where
  port_answer : ℤ × Os win → Os win × Result ℤ
  unfolding terminate
  port_answer (pos zero, o) = terminate win o
  port_answer (pos (suc n), o) = (o, ok (pos (suc n)))
  port_answer (negsuc n, o) = (o, ok (negsuc n))

  -- The constructor of the poller, which makes the completion port, and the destructor.
  pub make_io_poller : Os win → Os win × Result ℤ
  unfolding port_answer sys
  make_io_poller o = port_answer (sys win o create_completion_port)

  pub destroy_io_poller : ℤ → Os win → Os win
  unfolding sys
  destroy_io_poller completion_port o = (sys win o (close_handle completion_port)).1

-- `overlapped` is the address of an operation, or null.
pub record Dequeued : Type 0 where
  pub status : Bool
  pub num_bytes : ℕ
  pub completion_key : ℕ
  pub overlapped : Option ℕ
  pub error_code : ℕ

pub record Port : Type 1 where
  pub State : Type 0
  pub get_queued_completion_status : State → Dequeued × State

abbrev pub batch_size : ℕ
batch_size = 10

-- Nothing is in the port, or the port is closed.
unfoldable pub is_idle : ℕ → Bool
is_idle error_code = error_code == wait_timeout || error_code == error_abandoned_wait_0

pub report : Dequeued → Overlapped → Overlapped
report d o = record o {
  size = d.num_bytes;
  completion_key = d.completion_key;
  status = d.status;
  error_code = d.error_code;
}

-- The operation at an address is written to.
pub write_at : ℕ → (Overlapped → Overlapped) → (ℕ → Overlapped) → ℕ → Overlapped
write_at a f operations b = if b == a then f (operations b) else operations b

module _ (port : Port) where
  pub record Poller : Type 0 where
    pub ring : Ring ℕ
    pub operations : ℕ → Overlapped
    pub kernel : port.State

  -- `overlapped` is not null: its operation is reported, and its message goes into the ring.
  pub complete : Poller → Dequeued → ℕ → Result Poller
  unfolding report write_at
  complete p d a =
      let operations = write_at a (report d) p.operations in
      checked (push_front p.ring (operations a).message) >>= λ ring.
      ok (record p { ring = ring; operations = operations })

  handled : (Poller → Result Poller) → Poller → Dequeued → Option ℕ → Result Poller
  unfolding complete is_idle
  handled again p d none = if is_idle d.error_code then ok p else err terminated
  handled again p d (some a) = complete p d a >>= again

  pub handle_dequeued : (Poller → Result Poller) → Poller → Dequeued × port.State → Result Poller
  unfolding handled
  handle_dequeued again p (d, s) = handled again (record p { kernel = s }) d d.overlapped

  -- So many rounds of the loop at most.
  pub rounds : ℕ → Poller → Result Poller
  unfolding handle_dequeued
  rounds zero p = ok p
  rounds (suc left) p = handle_dequeued (rounds left) p (port.get_queued_completion_status p.kernel)

  pub poll : Poller → Result Poller
  unfolding rounds
  poll p =
      let room_size = capacity p.ring in
      if ltb 0 room_size then rounds (min room_size batch_size) p else ok p
