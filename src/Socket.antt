-- ===== src/Socket.antt =====
-- src/reactor/linux/socket_impl.cpp: server sockets and the connections that they accept. The
-- kernel is a parameter; `calls` lists the system calls and the suspensions of the fiber, in order.
-- A message is its address, and counts one event: `spent` says that it was counted, after which no
-- other resumes the fiber, before the counter has come round. `thrown e` is the exception with the
-- text of errno `e`.
pub mod Transfer
pub mod Open
pub mod Accept
mod Tests
use dumbo.Base.{
  ℕ, zero, suc, ◌+◌, List, [], ◌∷◌, ◌++◌, Bool, true, false, ◌==◌, ◌||◌, if◌then◌else◌, ℤ, pos,
  negsuc,
}
use dumbo.Base.Results.{Result, ok, err, thrown, asserted, blocked}
use dumbo.IpAddress.{IpAddress, is_v4}

-- EAGAIN and EWOULDBLOCK, which are equal on Linux, and EEXIST
abbrev pub eagain : ℕ
eagain = 11

abbrev pub ewouldblock : ℕ
ewouldblock = 11

abbrev pub eexist : ℕ
eexist = 17

pub data Call : Type 0 where
  socket : Call
  bind : ℤ → IpAddress → ℕ → Call
  listen_to : ℤ → Call
  accept_from : ℤ → Call
  read_from : ℤ → ℕ → Call
  write_to : ℤ → ℕ → Call
  epoll_add : ℤ → ℕ → Call
  epoll_del : ℤ → Call
  close : ℤ → Call
  wait_for : ℕ → Call

-- `wait_for` is the suspension until the message resumes the fiber; its result is not used.
pub record Net : Type 1 where
  pub State : Type 0
  pub call : State → Call → ℤ × State
  pub errno : State → ℕ

pub record Connection : Type 0 where
  pub connection_fd : ℤ
  pub message : ℕ

pub record ServerSocket : Type 0 where
  pub ip_address : IpAddress
  pub ip_port : ℕ
  pub socket_fd : ℤ

module _ (net : Net) where
  pub record Os : Type 0 where
    pub kernel : net.State
    pub calls : List Call
    pub spent : ℕ → Bool

  pub sys : Os → Call → ℤ × Os
  sys o c =
      let (r, s) = net.call o.kernel c in (r, record o { kernel = s; calls = o.calls ++ c ∷ [] })

  abbrev pub set_spent : Bool → ℕ → Os → Os
  set_spent b message o = record o { spent = λ a. if a == message then b else o.spent a }

  -- FiberIOMessage::wait_for: its event resumes the fiber, once.
  suspended : {A : Type 0} → (Os → Os × Result A) → ℕ → Os → Os × Result A
  unfolding sys
  suspended next message o =
      let o₁ = (sys o (wait_for message)).1 in
      let rest = next (set_spent true message o₁) in
      if o.spent message then (o₁, err blocked) else rest

  -- `rise_perror`
  raise : {A : Type 0} → Os → Os × Result A
  raise o = (o, err (thrown (net.errno o.kernel)))

  added : ℤ → ℕ → ℤ × Os → Os × Result Connection
  unfolding sys raise
  added fd message (pos n, o) = (o, ok (record { connection_fd = fd; message = message }))
  added fd message (negsuc n, o) = let (r, o₁) = sys o (close fd) in raise o₁

  -- The constructor of a connection, whose message is made at `message`.
  pub connect : Os → ℤ → ℕ → Os × Result Connection
  unfolding sys added
  connect o fd message = added fd message (sys (set_spent false message o) (epoll_add fd message))

  -- The destructor of a connection, and of a server socket; errors are only reported.
  pub close_watched : Os → ℤ → Os
  unfolding sys
  close_watched o fd = let (r, o₁) = sys o (epoll_del fd) in let (r', o₂) = sys o₁ (close fd) in o₂

  -- What a transfer does with the answer of the system call.
  transferred : (Os → Os × Result ℕ) → ℕ → ℤ × Os → Os × Result ℕ
  unfolding suspended raise
  transferred again message (pos n, o) =
      let rest = suspended again message o in
      if (n == eagain) || (n == ewouldblock) then rest else (o, ok n)
  transferred again message (negsuc n, o) = raise o

  -- The loop of `read` and of `write`; `fuel` bounds its rounds.
  pub transfer : ℕ → Call → ℕ → Os → Os × Result ℕ
  unfolding transferred sys
  transfer zero c message o = (o, err asserted)
  transfer (suc fuel) c message o =
      let again = transfer fuel c message in transferred again message (sys o c)

  -- `active` is the context of the fiber that calls, `owner` that of the connection's message.
  pub read : ℕ → Connection → ℕ → ℕ → ℕ → Os → Os × Result ℕ
  unfolding transfer
  read fuel c active owner size o =
      if active == owner
      then transfer fuel (read_from c.connection_fd size) c.message o
      else (o, err asserted)

  pub write : ℕ → Connection → ℕ → ℕ → ℕ → Os → Os × Result ℕ
  unfolding transfer
  write fuel c active owner size o =
      if active == owner
      then transfer fuel (write_to c.connection_fd size) c.message o
      else (o, err asserted)

  bound : IpAddress → ℕ → ℤ → ℤ × Os → Os × Result ServerSocket
  unfolding sys raise
  bound address port fd (pos n, o) =
      (o, ok (record { ip_address = address; ip_port = port; socket_fd = fd }))
  bound address port fd (negsuc n, o) = let (r, o₁) = sys o (close fd) in raise o₁

  opened : IpAddress → ℕ → ℤ × Os → Os × Result ServerSocket
  unfolding sys raise bound
  opened address port (pos fd, o) = bound address port (pos fd) (sys o (bind (pos fd) address port))
  opened address port (negsuc n, o) = raise o

  -- The constructor of a server socket.
  pub make_server_socket : Os → IpAddress → ℕ → Os × Result ServerSocket
  unfolding sys opened
  make_server_socket o address port =
      if is_v4 address then opened address port (sys o socket) else (o, err asserted)

  listening : ℤ × Os → Os × Result (Unit {0})
  unfolding raise
  listening (pos n, o) = (o, ok tt)
  listening (negsuc n, o) = raise o

  pub listen : Os → ServerSocket → Os × Result (Unit {0})
  unfolding sys listening
  listen o s = listening (sys o (listen_to s.socket_fd))

  watching : (Os → Os × Result Connection) → ℕ → ℤ × Os → Os × Result Connection
  unfolding suspended raise
  watching again message (pos n, o) = suspended again message o
  watching again message (negsuc n, o) = raise o

  accepted : (Os → Os × Result Connection) → ServerSocket → ℕ → ℕ → ℤ × Os → Os × Result Connection
  unfolding sys raise connect watching
  accepted again s message new_message (pos fd, o) = connect o (pos fd) new_message
  accepted again s message new_message (negsuc n, o) =
      let made = set_spent false message o in
      let watch = watching again message (sys made (epoll_add s.socket_fd message)) in
      if (net.errno o.kernel == eagain) || (net.errno o.kernel == ewouldblock)
      then watch
      else raise o

  -- The loop of `accept`; `fuel` bounds its rounds. `message` is the address of the message that a
  -- round makes on the stack, and `new_message` that of the message in the connection.
  pub accept : ℕ → ServerSocket → ℕ → ℕ → Os → Os × Result Connection
  unfolding accepted sys
  accept zero s message new_message o = (o, err asserted)
  accept (suc fuel) s message new_message o =
      let again = accept fuel s message new_message in
      accepted again s message new_message (sys o (accept_from s.socket_fd))
