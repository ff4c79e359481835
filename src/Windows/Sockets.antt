-- ===== src/Windows/Sockets.antt =====
-- src/reactor/msvc/msvc_socket_impl.cpp. `port` is the completion port of the reactor's poller; a
-- negative answer is SOCKET_ERROR or INVALID_SOCKET.
pub mod Opening
pub mod Accepting
use dumbo.Base.{ℕ, zero, suc, Bool, true, false, if◌then◌else◌, ℤ, pos, negsuc}
use dumbo.Base.Results.{Stop, Result, ok, err, thrown, asserted}
use dumbo.IpAddress.{IpAddress, is_v4}
use dumbo.Windows.{
  Overlapped, zeroed_overlapped, dword, socket, associate, bind, listen_to, get_accept_ex,
  accept_ex, close_socket, read_file, write_file, wait_for, Win, Os, sys, raise, is_started,
  transfer,
}

pub record Connection : Type 0 where
  pub connection_fd : ℤ

pub record ServerSocket : Type 0 where
  pub ip_address : IpAddress
  pub ip_port : ℕ
  pub socket_fd : ℤ

-- The operation of a local `overlapped` whose message is a local too.
abbrev pub local_overlapped : ℕ → Overlapped
unfolding zeroed_overlapped
local_overlapped message = record zeroed_overlapped { message = message }

-- A call that does not start raises its error.
abbrev pub socket_error : ℕ → Stop
socket_error code = thrown code

module _ (win : Win) where
  -- The destructor of a connection and that of a server socket.
  pub destroy : ℤ → Os win → Os win
  unfolding sys
  destroy fd o = (sys win o (close_socket fd)).1

  -- `message` and `operation` are the addresses of the locals.
  unfoldable pub read : Connection → ℕ → ℕ → ℕ → ℕ → Os win → Os win × Result ℕ
  unfolding transfer dword
  read c message operation buffer size =
      transfer win socket_error
        (read_file c.connection_fd buffer (dword size) operation (local_overlapped message)) message
        operation

  unfoldable pub write : Connection → ℕ → ℕ → ℕ → ℕ → Os win → Os win × Result ℕ
  unfolding transfer dword
  write c message operation buffer size =
      transfer win socket_error
        (write_file c.connection_fd buffer (dword size) operation (local_overlapped message))
        message operation

  -- `closesocket`, and then the exception with the error of the last call.
  pub close_and_raise : {A : Type 0} → ℤ → Os win → Os win × Result A
  unfolding sys raise
  close_and_raise fd o = raise win (sys win o (close_socket fd)).1

  bound : IpAddress → ℕ → ℤ → ℤ × Os win → Os win × Result ServerSocket
  unfolding close_and_raise
  bound address ip_port fd (pos n, o) =
      (o, ok (record { ip_address = address; ip_port = ip_port; socket_fd = fd }))
  bound address ip_port fd (negsuc n, o) = close_and_raise fd o

  associated : IpAddress → ℕ → ℤ → ℤ × Os win → Os win × Result ServerSocket
  unfolding raise bound sys
  associated address ip_port fd (pos zero, o) = raise win o
  associated address ip_port fd (pos (suc n), o) =
      bound address ip_port fd (sys win o (bind fd address ip_port))
  associated address ip_port fd (negsuc n, o) =
      bound address ip_port fd (sys win o (bind fd address ip_port))

  opened : ℤ → IpAddress → ℕ → ℤ × Os win → Os win × Result ServerSocket
  unfolding raise associated sys
  opened port address ip_port (pos fd, o) =
      associated address ip_port (pos fd) (sys win o (associate (pos fd) port))
  opened port address ip_port (negsuc n, o) = raise win o

  -- The constructor of a server socket.
  pub make_server_socket : ℤ → IpAddress → ℕ → Os win → Os win × Result ServerSocket
  unfolding opened sys
  make_server_socket port address ip_port o =
      if is_v4 address then opened port address ip_port (sys win o socket) else (o, err asserted)

  listening : ℤ × Os win → Os win × Result (Unit {0})
  unfolding raise
  listening (pos zero, o) = (o, ok tt)
  listening (pos (suc n), o) = raise win o
  listening (negsuc n, o) = raise win o

  pub listen : ServerSocket → Os win → Os win × Result (Unit {0})
  unfolding listening sys
  listen s o = listening (sys win o (listen_to s.socket_fd 100))

  connected : ℤ → ℤ × Os win → Os win × Result Connection
  unfolding close_and_raise
  connected fd (pos zero, o) = close_and_raise fd o
  connected fd (pos (suc n), o) = (o, ok (record { connection_fd = fd }))
  connected fd (negsuc n, o) = (o, ok (record { connection_fd = fd }))

  -- The status of the completed operation is not looked at.
  accepting : ℤ → ℕ → ℤ → ℤ × Os win → Os win × Result Connection
  unfolding is_started connected close_and_raise sys
  accepting port message fd (r, o) =
      if is_started win r o
      then connected fd (sys win (sys win o (wait_for message)).1 (associate fd port))
      else close_and_raise fd o

  accept_socket : ℤ → ServerSocket → ℕ → ℕ → ℤ × Os win → Os win × Result Connection
  unfolding raise accepting sys
  accept_socket port s message operation (pos fd, o) =
      accepting port message (pos fd)
        (sys win o (accept_ex s.socket_fd (pos fd) operation (local_overlapped message)))
  accept_socket port s message operation (negsuc n, o) = raise win o

  found_accept_ex : ℤ → ServerSocket → ℕ → ℕ → ℤ × Os win → Os win × Result Connection
  unfolding close_and_raise accept_socket sys
  found_accept_ex port s message operation (pos n, o) =
      accept_socket port s message operation (sys win o socket)
  found_accept_ex port s message operation (negsuc n, o) = close_and_raise s.socket_fd o

  pub accept : ℤ → ServerSocket → ℕ → ℕ → Os win → Os win × Result Connection
  unfolding found_accept_ex sys
  accept port s message operation o =
      found_accept_ex port s message operation (sys win o (get_accept_ex s.socket_fd))
