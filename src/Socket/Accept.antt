-- ===== src/Socket/Accept.antt =====
-- `accept` of a server socket of socket_impl.cpp.
use dumbo.Base.{
  ℕ, suc, ◌≡◌, refl, ap, ◌∙◌, [], ◌∷◌, ◌++◌, Bool, true, false, ==_refl, ℤ, pos, negsuc,
}
use dumbo.Base.Results.{Result, ok, err, thrown}
use dumbo.Socket.{
  set_spent, suspended, added, accept_from, epoll_add, wait_for, Net, Os, sys, raise, Connection,
  ServerSocket, connect, watching, accepted, accept, eagain, eexist,
}

-- A descriptor that epoll watches is watched until it is removed, and cannot be added again.
pub record EpollLaws (net : Net) : Type 0 where
  pub watched : net.State → ℤ → Bool
  pub add_watches :
      (s : net.State) (fd : ℤ) (m n : ℕ)
      → (net.call s (epoll_add fd m)).0 ≡ pos n
      → watched (net.call s (epoll_add fd m)).1 fd ≡ true
  pub add_again :
      (s : net.State) (fd : ℤ) (m : ℕ)
      → watched s fd ≡ true
      → (n : ℕ) × ((net.call s (epoll_add fd m)).0 ≡ negsuc n)
        × (net.errno (net.call s (epoll_add fd m)).1 ≡ eexist)
  pub wait_keeps :
      (s : net.State) (fd : ℤ) (m : ℕ)
      → watched s fd ≡ true
      → watched (net.call s (wait_for m)).1 fd ≡ true
  pub accept_keeps :
      (s : net.State) (fd : ℤ)
      → watched s fd ≡ true
      → watched (net.call s (accept_from fd)).1 fd ≡ true

module _ (net : Net) (s : ServerSocket) (m new : ℕ) where
  -- `accept` would block: it fails with EAGAIN.
  abbrev pub Blocks : ℤ × Os net → Type 0
  Blocks a = (n : ℕ) × (a.0 ≡ negsuc n) × (net.errno a.1.kernel ≡ eagain)

  accepted-Blocks :
      (again : Os net → Os net × Result Connection) (a : ℤ × Os net)
      → Blocks a
      → accepted net again s m new a
        ≡ watching net again m (sys net (set_spent net false m a.1) (epoll_add s.socket_fd m))
  unfolding accepted
  accepted-Blocks again (r, o) (n, e, q) = ap (λ r'. accepted net again s m new (r', o)) e ∙ rw q

  -- A fiber that was resumed by the event of its message.
  abbrev pub woken : Os net → Os net
  woken o = set_spent net true m (sys net o (wait_for m)).1

  watching-added :
      (again : Os net → Os net × Result Connection) (a : ℤ × Os net) (n : ℕ)
      → a.0 ≡ pos n
      → a.1.spent m ≡ false
      → watching net again m a ≡ again (woken a.1)
  unfolding watching suspended
  watching-added again (r, o) n e h = ap (λ r'. watching net again m (r', o)) e ∙ rw h

  watching-refused :
      (again : Os net → Os net × Result Connection) (a : ℤ × Os net) (n : ℕ)
      → a.0 ≡ negsuc n
      → watching net again m a ≡ (a.1, err (thrown (net.errno a.1.kernel)))
  unfolding watching raise
  watching-refused again (r, o) n e = ap (λ r'. watching net again m (r', o)) e

  accepted-connects :
      (again : Os net → Os net × Result Connection) (a : ℤ × Os net) (n : ℕ)
      → a.0 ≡ pos n
      → accepted net again s m new a ≡ connect net a.1 (pos n) new
  unfolding accepted
  accepted-connects again (r, o) n e = ap (λ r'. accepted net again s m new (r', o)) e

  -- The call of accept, the registration after it, and the fiber resumed after that.
  abbrev pub first_try : Os net → ℤ × Os net
  first_try o = sys net o (accept_from s.socket_fd)

  abbrev pub registered : Os net → ℤ × Os net
  registered o = sys net (set_spent net false m (first_try o).1) (epoll_add s.socket_fd m)

  abbrev pub resumed : Os net → Os net
  resumed o = woken (registered o).1

  round_waits :
      (more k : ℕ) (o : Os net)
      → Blocks (first_try o)
      → (registered o).0 ≡ pos k
      → accept net (suc more) s m new o ≡ accept net more s m new (resumed o)
  unfolding accept sys
  round_waits more k o b e =
      accepted-Blocks (accept net more s m new) (first_try o) b
      ∙ watching-added (accept net more s m new) (registered o) k e (rw (==_refl m) refl)

  -- The connection at `fd` with its message, and its registration.
  abbrev connection : ℕ → Connection
  connection fd = record { connection_fd = pos fd; message = new }

  abbrev pub watched_connection : ℕ → Os net → ℤ × Os net
  watched_connection fd o = sys net (set_spent net false new o) (epoll_add (pos fd) new)

  added-taken :
      (fd j : ℕ) (a : ℤ × Os net)
      → a.0 ≡ pos j
      → added net (pos fd) new a ≡ (a.1, ok (connection fd))
  unfolding added
  added-taken fd j (r, o) e = ap (λ r'. added net (pos fd) new (r', o)) e

  -- An `accept` that would block watches the socket with the message `m` and waits for it. If there
  -- is a connection then, which epoll takes with the message `new`, it returns this connection,
  -- whose message has its event still to come, after just these calls.
  pub accept_waits :
      (more k fd j : ℕ) (o : Os net)
      → Blocks (first_try o)
      → (registered o).0 ≡ pos k
      → (first_try (resumed o)).0 ≡ pos fd
      → (watched_connection fd (first_try (resumed o)).1).0 ≡ pos j
      → (o' : Os net) × (accept net (suc (suc more)) s m new o
          ≡ (o', ok (record { connection_fd = pos fd; message = new })))
        × (o'.spent new ≡ false)
        × (o'.calls
            ≡ o.calls
              ++ accept_from s.socket_fd ∷ []
              ++ epoll_add s.socket_fd m ∷ []
              ++ wait_for m ∷ []
              ++ accept_from s.socket_fd ∷ []
              ++ epoll_add (pos fd) new ∷ [])
  unfolding accept connect sys
  accept_waits more k fd j o b e h w = (
    (watched_connection fd (first_try (resumed o)).1).1,
    round_waits (suc more) k o b e
        ∙ accepted-connects (accept net more s m new) (first_try (resumed o)) fd h
        ∙ added-taken fd j (watched_connection fd (first_try (resumed o)).1) w,
    rw (==_refl new) refl,
    refl,
  )

  -- An `accept` that would block on a socket that epoll watches from before throws EEXIST.
  pub accept_once :
      (laws : EpollLaws net) (more : ℕ) (o : Os net)
      → laws.watched o.kernel s.socket_fd ≡ true
      → Blocks (first_try o)
      → accept net (suc more) s m new o ≡ ((registered o).1, err (thrown eexist))
  unfolding accept sys
  accept_once laws more o w b =
      let (n, e, q) =
        laws.add_again (first_try o).1.kernel s.socket_fd m
          (laws.accept_keeps o.kernel s.socket_fd w) in
      accepted-Blocks (accept net more s m new) (first_try o) b
      ∙ watching-refused (accept net more s m new) (registered o) n e
      ∙ ap (λ c. ((registered o).1, err (thrown c))) q

  -- An `accept` that would block, watches the socket, waits, and would block again, throws EEXIST:
  -- epoll still watches the socket.
  pub accept_twice :
      (laws : EpollLaws net) (more k : ℕ) (o : Os net)
      → Blocks (first_try o)
      → (registered o).0 ≡ pos k
      → Blocks (first_try (resumed o))
      → accept net (suc (suc more)) s m new o ≡ ((registered (resumed o)).1, err (thrown eexist))
  unfolding sys
  accept_twice laws more k o b e b' =
      round_waits (suc more) k o b e
      ∙ accept_once laws more (resumed o)
          (laws.wait_keeps (registered o).1.kernel s.socket_fd m
            (laws.add_watches (first_try o).1.kernel s.socket_fd m k e))
          b'
