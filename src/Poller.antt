-- ===== src/Poller.antt =====
-- src/reactor/linux/io_poller.cpp: one `poll` moves the messages of finished IO into the ring. The
-- kernel is a parameter: what epoll_pwait and io_getevents return, as functions of its state. A
-- message is its address; `complete` stands for the virtual calls `process` and `report`.
pub mod Deliver
pub mod Poll
pub mod Setup
mod Tests
use Prim.Native.Nat.{min}
use dumbo.Base.{
  ℕ, suc, ◌+◌, ◌-◌, ◌≤◌, ◌≡◌, List, [], ◌∷◌, ◌++◌, map, Option, none, some, Bool, true, false, ltb,
  leb, if◌then◌else◌, length, ℤ, pos, negsuc, sub_ℕ, min_ℤ,
}
use dumbo.Base.Results.{Result, ok, err, terminated, ◌>>=◌, checked}
use dumbo.Ring.{Ring, capacity_i, push_front}

abbrev pub batch_size : ℕ
batch_size = 512

-- An epoll_event by its `data.ptr`: the address of `event_fd_`, or a message or null.
pub data Ready : Type 0 where
  event_fd : Ready
  user : Option ℕ → Ready

-- io_event, with the message that `data` points to.
pub record IoEvent : Type 0 where
  pub message : ℕ
  pub obj : ℕ
  pub res : ℤ
  pub res2 : ℕ

-- `none` is a negative result.
pub record Kernel : Type 1 where
  pub State : Type 0
  pub epoll_pwait : State → ℕ → Option (List Ready) × State
  pub io_getevents : State → ℤ → Option (List IoEvent) × State

unfoldable pub count_event_fd : List Ready → ℕ
count_event_fd [] = 0
count_event_fd (event_fd ∷ evs) = suc (count_event_fd evs)
count_event_fd (user m ∷ evs) = count_event_fd evs

-- The documented bounds: a call returns no more events than were asked for, and a file descriptor
-- that is watched once is reported once by a call.
pub record Lawful (k : Kernel) : Type 0 where
  pub epoll_bound :
      (s : k.State) (n : ℕ) (evs : List Ready) → (k.epoll_pwait s n).0 ≡ some evs → length evs ≤ n
  pub epoll_once :
      (s : k.State) (n : ℕ) (evs : List Ready)
      → (k.epoll_pwait s n).0 ≡ some evs
      → count_event_fd evs ≤ 1
  pub aio_bound :
      (s : k.State) (n : ℕ) (evs : List IoEvent)
      → (k.io_getevents s (pos n)).0 ≡ some evs
      → length evs ≤ n

module _ (k : Kernel) {Store : Type 0} (complete : IoEvent → Store → Store) where
  pub record Poller : Type 0 where
    pub ring : Ring ℕ
    pub store : Store
    pub kernel : k.State

  pub push_message : Poller → ℕ → Result Poller
  push_message p m = do ring' ← checked (push_front p.ring m); ok (record p { ring = ring' })

  pub push_events : Poller → List IoEvent → Result Poller
  unfolding push_message
  push_events p [] = ok p
  push_events p (e ∷ es) =
      push_message (record p { store = complete e p.store }) e.message >>= λ q. push_events q es

  -- What `poll_file_events` does with the answer of io_getevents.
  pub take_completions : Poller → Option (List IoEvent) × k.State → Result Poller
  unfolding push_events
  take_completions p (none, s) = err terminated
  take_completions p (some events, s) = push_events (record p { kernel = s }) events

  pub poll_file_events : Poller → ℕ → ℕ → Result Poller
  unfolding take_completions
  poll_file_events p buffer_capacity other_events =
      take_completions p
        (k.io_getevents p.kernel (min_ℤ (sub_ℕ buffer_capacity other_events) (pos batch_size)))

  -- It answers true for now, as the source says.
  pub read_eventfd : Poller → Bool
  read_eventfd p = true

  -- One round of the loop over `eevents`.
  pub handle_ready : ℕ → ℕ → Poller → Ready → Result Poller
  unfolding poll_file_events read_eventfd push_message
  handle_ready capacity epoll_result p event_fd =
      if read_eventfd p then poll_file_events p capacity (epoll_result - 1) else ok p
  handle_ready capacity epoll_result p (user none) = ok p
  handle_ready capacity epoll_result p (user (some m)) = push_message p m

  pub handle_all : ℕ → ℕ → Poller → List Ready → Result Poller
  unfolding handle_ready
  handle_all capacity epoll_result p [] = ok p
  handle_all capacity epoll_result p (e ∷ es) =
      handle_ready capacity epoll_result p e >>= λ q. handle_all capacity epoll_result q es

  -- What `poll` does with the answer of epoll_pwait.
  pub take_ready : Poller → ℕ → Option (List Ready) × k.State → Result Poller
  unfolding handle_all
  take_ready p capacity (none, s) = err terminated
  take_ready p capacity (some events, s) =
      handle_all capacity (length events) (record p { kernel = s }) events

  pub poll_room : Poller → ℤ → Result Poller
  unfolding take_ready
  poll_room p (negsuc n) = ok p
  poll_room p (pos capacity) =
      if ltb 0 capacity
      then take_ready p capacity (k.epoll_pwait p.kernel (min capacity batch_size))
      else ok p

  pub poll : Poller → Result Poller
  unfolding poll_room
  poll p = poll_room p (capacity_i p.ring)
