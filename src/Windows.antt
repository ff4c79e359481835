-- ===== src/Windows.antt =====
-- include/dumbo/v1/reactor/msvc/msvc_io_poller.hpp, and the loop by which files and sockets of the
-- Windows port transfer bytes. The calls are a parameter. A DWORD and an `int64_t` are their words
-- of 32 and 64 bits. A handle or a socket is `pos`, INVALID_HANDLE_VALUE and INVALID_SOCKET are
-- `negsuc 0`; FALSE and null are `pos 0`. An operation and a message are their addresses.
pub mod Completions
pub mod Transfer
pub mod Files
pub mod Batches
pub mod Sockets
pub mod Streams
pub mod Scripted
mod Tests
use dumbo.Base.{
  ℕ, zero, suc, ◌+◌, ◌*◌, ◌/◌, ◌%◌, ◌^◌, ◌<◌, ◌≡◌, arith, List, [], ◌∷◌, ◌++◌, Bool, true, false,
  ◌==◌, ◌||◌, if◌then◌else◌, ℤ, pos, negsuc,
}
use dumbo.Base.Results.{Stop, Result, ok, err, thrown, terminated, blocked}
use dumbo.IpAddress.{IpAddress}

abbrev pub error_not_enough_memory : ℕ
error_not_enough_memory = 8

abbrev pub wait_timeout : ℕ
wait_timeout = 258

abbrev pub error_abandoned_wait_0 : ℕ
error_abandoned_wait_0 = 735

abbrev pub error_io_pending : ℕ
error_io_pending = 997

abbrev pub error_invalid_user_buffer : ℕ
error_invalid_user_buffer = 1784

pub data Operation : Type 0 where
  read_operation write_operation : Operation

-- OVERLAPPEDMsg: `message` is the address of the AIOMessage, `buffer` that of the bytes.
pub record Overlapped : Type 0 where
  pub message : ℕ
  pub size : ℕ
  pub completion_key : ℕ
  pub error_code : ℕ
  pub status : Bool
  pub operation : Operation
  pub buffer : ℕ
  pub requested_size : ℕ
  pub offset : ℕ
  pub offset_high : ℕ

pub dword : ℕ → ℕ
dword n = n % 2 ^ 32

-- `tools::make_zeroed<OVERLAPPEDMsg>()`
pub zeroed_overlapped : Overlapped
zeroed_overlapped = record {
  message = 0;
  size = 0;
  completion_key = 0;
  error_code = 0;
  status = false;
  operation = read_operation;
  buffer = 0;
  requested_size = 0;
  offset = 0;
  offset_high = 0;
}

-- `Offset = (DWORD)offset; OffsetHigh = (DWORD)(offset >> 32)`
pub set_offset : ℕ → Overlapped → Overlapped
unfolding dword
set_offset offset o = record o { offset = dword offset; offset_high = dword (offset / 2 ^ 32) }

pub configure_overlapped : Operation → ℕ → ℕ → ℕ → Overlapped → Overlapped
unfolding set_offset
configure_overlapped operation buffer offset size o = record (set_offset offset o) {
  operation = operation;
  buffer = buffer;
  requested_size = size;
}

pub set_offset_lem :
    (offset : ℕ) (o : Overlapped)
    → offset < 2 ^ 64
    → (set_offset offset o).offset_high * 2 ^ 32 + (set_offset offset o).offset ≡ offset
unfolding set_offset dword
set_offset_lem offset o h = omega arith

pub data Call : Type 0 where
  create_completion_port : Call
  associate : ℤ → ℤ → Call
  close_handle : ℤ → Call
  create_file : List ℕ → ℕ → ℕ → ℕ → ℕ → Call
  read_file : ℤ → ℕ → ℕ → ℕ → Overlapped → Call
  write_file : ℤ → ℕ → ℕ → ℕ → Overlapped → Call
  aligned_malloc : ℕ → ℕ → Call
  socket : Call
  bind : ℤ → IpAddress → ℕ → Call
  listen_to : ℤ → ℕ → Call
  get_accept_ex : ℤ → Call
  accept_ex : ℤ → ℤ → ℕ → Overlapped → Call
  close_socket : ℤ → Call
  set_count : ℕ → ℕ → Call
  wait_for : ℕ → Call

-- What the poller has written to an operation.
pub record Completion : Type 0 where
  pub status : Bool
  pub size : ℕ
  pub error_code : ℕ

-- `wait_for` is the suspension until the message resumes the fiber, and `set_count` a write to the
-- message; only Batches looks at a result of theirs, that of `wait_for`, for the completions that
-- are counted before the fiber goes on.
pub record Win : Type 1 where
  pub State : Type 0
  pub call : State → Call → ℤ × State
  pub last_error : State → ℕ
  pub errno : State → ℕ
  pub completion : State → ℕ → Completion

pub is_true : ℤ → Bool
is_true (pos zero) = false
is_true (pos (suc n)) = true
is_true (negsuc n) = true

-- There are not enough resources to start the operation.
pub is_starved : ℕ → Bool
is_starved code = code == error_invalid_user_buffer || code == error_not_enough_memory

module _ (win : Win) where
  pub record Os : Type 0 where
    pub kernel : win.State
    pub calls : List Call

  pub sys : Os → Call → ℤ × Os
  sys o c =
      let (r, s) = win.call o.kernel c in (r, record { kernel = s; calls = o.calls ++ c ∷ [] })

  -- `rise_win_error` with GetLastError or WSAGetLastError
  pub raise : {A : Type 0} → Os → Os × Result A
  raise o = (o, err (thrown (win.last_error o.kernel)))

  -- `DumpErrorMessage` and std::terminate
  pub terminate : {A : Type 0} → Os → Os × Result A
  terminate o = (o, err terminated)

  -- The operation was started, or will be completed later.
  pub is_started : ℤ → Os → Bool
  unfolding is_true
  is_started r o = is_true r || win.last_error o.kernel == error_io_pending

  -- After the wait: the size, or an exception.
  pub finished : ℕ → Os → Os × Result ℕ
  finished operation o =
      let c = win.completion o.kernel operation in
      if c.status then (o, ok c.size) else (o, err (thrown c.error_code))

  pub started : (ℕ → Stop) → ℕ → ℕ → ℤ × Os → Os × Result ℕ
  unfolding sys is_started is_starved finished
  started on_error message operation (r, o) =
      let waited = (sys o (wait_for message)).1 in
      if is_started r o
      then finished operation waited
      else (if is_starved (win.last_error o.kernel)
          then (waited, err blocked)
          else (o, err (on_error (win.last_error o.kernel))))

  -- The loop of `read` and of `write` of files and of sockets, which differ in `on_error`. No round
  -- is followed by another: after a call that lacks resources the fiber waits for its message, which
  -- no operation was started for, and so it is never resumed.
  pub transfer : (ℕ → Stop) → Call → ℕ → ℕ → Os → Os × Result ℕ
  unfolding started sys
  transfer on_error c message operation o = started on_error message operation (sys o c)
