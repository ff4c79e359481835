-- ===== src/Socket/Open.antt =====
-- How descriptors are opened, watched and closed in socket_impl.cpp.
use dumbo.Base.{ℕ, ◌≡◌, refl, sym, ap, subst, List, [], ◌∷◌, ◌++◌, true, false, ℤ, pos, negsuc}
use dumbo.Base.Results.{Result, ok, err, thrown}
use dumbo.IpAddress.{IpAddress, is_v4}
use dumbo.Socket.{
  Call, socket, bind, epoll_add, close, Net, Os, sys, raise, added, connect, bound, opened,
  make_server_socket, set_spent,
}

module _ (net : Net) where
  -- The calls `cs` were made, and there is a result or an exception; `undo` follows an exception.
  pub data EitherWay {A : Type 0} (cs : List Call) (undo : Call) (a : A)
      : Os net × Result A → Type 0 where
    made : (o : Os net) → o.calls ≡ cs → EitherWay cs undo a (o, ok a)
    undone :
        (o : Os net) (e : ℕ) → o.calls ≡ cs ++ undo ∷ [] → EitherWay cs undo a (o, err (thrown e))

  added_lem :
      (fd : ℤ) (message : ℕ) (cs : List Call) (a : ℤ × Os net)
      → a.1.calls ≡ cs
      → EitherWay cs
          (close fd)
          (record { connection_fd = fd; message = message })
          (added net fd message a)
  unfolding added sys raise
  added_lem fd message cs (pos n, o) e = made o e
  added_lem fd message cs (negsuc n, o) e =
      undone (sys net o (close fd)).1 _ (ap (λ xs. xs ++ close fd ∷ []) e)

  bound_lem :
      (address : IpAddress) (port : ℕ) (fd : ℤ) (cs : List Call) (a : ℤ × Os net)
      → a.1.calls ≡ cs
      → EitherWay cs
          (close fd)
          (record { ip_address = address; ip_port = port; socket_fd = fd })
          (bound net address port fd a)
  unfolding bound sys raise
  bound_lem address port fd cs (pos n, o) e = made o e
  bound_lem address port fd cs (negsuc n, o) e =
      undone (sys net o (close fd)).1 _ (ap (λ xs. xs ++ close fd ∷ []) e)

  -- A constructor that throws has closed its descriptor: that of a connection when epoll does not
  -- take it, and that of a server socket, once it is open, when it cannot be bound.
  pub no_leak :
      (o o₁ : Os net) (fd : ℤ) (n message port : ℕ) (address : IpAddress)
      → is_v4 address ≡ true
      → sys net o socket ≡ (pos n, o₁)
      → EitherWay
          (o.calls ++ epoll_add fd message ∷ [])
          (close fd)
          (record { connection_fd = fd; message = message })
          (connect net o fd message)
        × EitherWay
            (o.calls ++ socket ∷ [] ++ bind (pos n) address port ∷ [])
            (close (pos n))
            (record { ip_address = address; ip_port = port; socket_fd = pos n })
            (make_server_socket net o address port)
  unfolding connect make_server_socket opened sys
  no_leak o o₁ fd n message port address v e = (
    added_lem fd message (o.calls ++ epoll_add fd message ∷ [])
        (sys net (set_spent net false message o) (epoll_add fd message)) refl,
    rw v (
        subst
          (λ a.
            EitherWay (o.calls ++ socket ∷ [] ++ bind (pos n) address port ∷ []) (close (pos n))
              (record { ip_address = address; ip_port = port; socket_fd = pos n })
              (opened net address port a))
          (sym e)
          (bound_lem address port (pos n) (o.calls ++ socket ∷ [] ++ bind (pos n) address port ∷ [])
            (sys net o₁ (bind (pos n) address port))
            (ap (λ xs. xs ++ bind (pos n) address port ∷ []) (sym (ap (λ a. a.1.calls) e))))),
  )
