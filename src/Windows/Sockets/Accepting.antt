-- ===== src/Windows/Sockets/Accepting.antt =====
-- `accept` of a server socket in msvc_socket_impl.cpp.
use dumbo.Base.{ℕ, zero, suc, ◌≡◌, ◌≢◌, inl, inr, true, false, Bool-cases, ℤ, pos, negsuc}
use dumbo.Base.Results.{Result, ok, err, thrown}
use dumbo.Windows.{
  Call, socket, associate, get_accept_ex, accept_ex, close_socket, wait_for, Win, Os, sys, raise,
  is_started,
}
use dumbo.Windows.Sockets.{
  Connection, ServerSocket, local_overlapped, close_and_raise, connected, accepting, accept_socket,
  found_accept_ex, accept,
}

module _ (win : Win) where
  abbrev pub Answer : Type 0
  Answer = ℤ × Os win

  -- The exception with the error of the last call, and with the socket `fd` closed before that.
  abbrev pub throws_last : Os win → Os win × Result Connection
  throws_last o = (o, err (thrown (win.last_error o.kernel)))

  abbrev pub throws_closed : ℤ → Os win → Os win × Result Connection
  throws_closed fd o = throws_last (sys win o (close_socket fd)).1

  module _ (port : ℤ) (s : ServerSocket) (message operation : ℕ) where
    abbrev pub accept_call : ℤ → Call
    accept_call fd = accept_ex s.socket_fd fd operation (local_overlapped message)

    -- The association of the socket `fd` after the wait.
    abbrev pub association : ℤ → Os win → Answer
    association fd o = sys win (sys win o (wait_for message)).1 (associate fd port)

    -- What the answers of the calls decide.
    pub data Associating (fd : ℤ) : Answer → Os win × Result Connection → Type 0 where
      not_associated : (o : Os win) → Associating fd (pos 0, o) (throws_closed fd o)
      associated :
          (r : ℤ) (o : Os win)
          → r ≢ pos 0
          → Associating fd (r, o) (o, ok (record { connection_fd = fd }))

    pub data Starting (fd : ℤ) : Answer → Os win × Result Connection → Type 0 where
      not_started :
          (r : ℤ) (o : Os win)
          → is_started win r o ≡ false
          → Starting fd (r, o) (throws_closed fd o)
      starts :
          (r : ℤ) (o : Os win) (t : Os win × Result Connection)
          → is_started win r o ≡ true
          → Associating fd (association fd o) t
          → Starting fd (r, o) t

    pub data Opening : Answer → Os win × Result Connection → Type 0 where
      no_socket : (n : ℕ) (o : Os win) → Opening (negsuc n, o) (throws_last o)
      opens :
          (n : ℕ) (o : Os win) (t : Os win × Result Connection)
          → Starting (pos n) (sys win o (accept_call (pos n))) t
          → Opening (pos n, o) t

    pub data Finding : Answer → Os win × Result Connection → Type 0 where
      no_function : (n : ℕ) (o : Os win) → Finding (negsuc n, o) (throws_closed s.socket_fd o)
      finds :
          (n : ℕ) (o : Os win) (t : Os win × Result Connection)
          → Opening (sys win o socket) t
          → Finding (pos n, o) t

    connected_lem : (fd : ℤ) (a : Answer) → Associating fd a (connected win fd a)
    unfolding connected close_and_raise raise
    connected_lem fd (pos zero, o) = not_associated o
    connected_lem fd (pos (suc n), o) = associated (pos (suc n)) o (λ e. cc)
    connected_lem fd (negsuc n, o) = associated (negsuc n) o (λ e. cc)

    accepting_lem : (fd : ℤ) (a : Answer) → Starting fd a (accepting win port message fd a)
    unfolding accepting close_and_raise raise
    accepting_lem fd (r, o) = elim (Bool-cases (is_started win r o)) [
      | inl q ↦ rw q (starts r o _ q (connected_lem fd (association fd o)))
      | inr q ↦ rw q (not_started r o q)
    ]

    accept_socket_lem : (a : Answer) → Opening a (accept_socket win port s message operation a)
    unfolding accept_socket raise
    accept_socket_lem (pos fd, o) =
        opens fd o _ (accepting_lem (pos fd) (sys win o (accept_call (pos fd))))
    accept_socket_lem (negsuc n, o) = no_socket n o

    found_accept_ex_lem : (a : Answer) → Finding a (found_accept_ex win port s message operation a)
    unfolding found_accept_ex close_and_raise raise
    found_accept_ex_lem (pos n, o) = finds n o _ (accept_socket_lem (sys win o socket))
    found_accept_ex_lem (negsuc n, o) = no_function n o

-- The answers of the calls alone decide what `accept` does. Without AcceptEx it closes the server
-- socket and throws, and it throws if it gets no socket for the connection. If AcceptEx does not
-- start, or if the socket is not associated after the wait, it closes that socket and throws. In
-- every other case it returns the connection of that socket, whatever became of the operation that
-- it has waited for.
pub accept_lem :
    (win : Win) (port : ℤ) (s : ServerSocket) (message operation : ℕ) (o : Os win)
    → Finding win port s message operation
        (sys win o (get_accept_ex s.socket_fd))
        (accept win port s message operation o)
unfolding accept
accept_lem win port s message operation o =
    found_accept_ex_lem win port s message operation (sys win o (get_accept_ex s.socket_fd))
