-- ===== src/Windows/Sockets/Opening.antt =====
-- The constructor of a server socket in msvc_socket_impl.cpp.
use dumbo.Base.{ℕ, zero, suc, ◌≡◌, refl, ap, List, [], ◌∷◌, ◌++◌, true, ℤ, pos, negsuc}
use dumbo.Base.Results.{Result, ok, err, thrown}
use dumbo.IpAddress.{IpAddress, is_v4}
use dumbo.Windows.{Call, socket, associate, bind, close_socket, Win, Os, sys, raise}
use dumbo.Windows.Sockets.{
  ServerSocket, close_and_raise, bound, associated, opened, make_server_socket,
}

module _ (win : Win) (port : ℤ) (address : IpAddress) (ip_port : ℕ) (before : List Call) where
  -- What the constructor has called after `before`, with its result. The socket `fd` is open after
  -- the exception of `not_associated`, and closed after that of `not_bound`.
  pub data Opening : Os win × Result ServerSocket → Type 0 where
    no_socket : (o : Os win) (e : ℕ) → o.calls ≡ before ++ socket ∷ [] → Opening (o, err (thrown e))
    not_associated :
        (fd : ℤ) (o : Os win) (e : ℕ)
        → o.calls ≡ before ++ socket ∷ [] ++ associate fd port ∷ []
        → Opening (o, err (thrown e))
    not_bound :
        (fd : ℤ) (o : Os win) (e : ℕ)
        → o.calls
          ≡ before
            ++ socket ∷ []
            ++ associate fd port ∷ []
            ++ bind fd address ip_port ∷ []
            ++ close_socket fd ∷ []
        → Opening (o, err (thrown e))
    made :
        (fd : ℤ) (o : Os win)
        → o.calls ≡ before ++ socket ∷ [] ++ associate fd port ∷ [] ++ bind fd address ip_port ∷ []
        → Opening (o, ok (record { ip_address = address; ip_port = ip_port; socket_fd = fd }))

  bound_lem :
      (fd : ℤ) (a : ℤ × Os win)
      → a.1.calls ≡ before ++ socket ∷ [] ++ associate fd port ∷ [] ++ bind fd address ip_port ∷ []
      → Opening (bound win address ip_port fd a)
  unfolding bound close_and_raise sys raise
  bound_lem fd (pos n, o) e = made fd o e
  bound_lem fd (negsuc n, o) e =
      not_bound fd (sys win o (close_socket fd)).1 _ (ap (λ cs. cs ++ close_socket fd ∷ []) e)

  associated_lem :
      (fd : ℤ) (a : ℤ × Os win)
      → a.1.calls ≡ before ++ socket ∷ [] ++ associate fd port ∷ []
      → Opening (associated win address ip_port fd a)
  unfolding associated raise sys
  associated_lem fd (pos zero, o) e = not_associated fd o _ e
  associated_lem fd (pos (suc n), o) e =
      bound_lem fd (sys win o (bind fd address ip_port))
        (ap (λ cs. cs ++ bind fd address ip_port ∷ []) e)
  associated_lem fd (negsuc n, o) e =
      bound_lem fd (sys win o (bind fd address ip_port))
        (ap (λ cs. cs ++ bind fd address ip_port ∷ []) e)

  opened_lem :
      (a : ℤ × Os win)
      → a.1.calls ≡ before ++ socket ∷ []
      → Opening (opened win port address ip_port a)
  unfolding opened raise sys
  opened_lem (pos fd, o) e =
      associated_lem (pos fd) (sys win o (associate (pos fd) port))
        (ap (λ cs. cs ++ associate (pos fd) port ∷ []) e)
  opened_lem (negsuc n, o) e = no_socket o _ e

-- The constructor of a server socket for an IPv4 address throws when there is no socket, when the
-- socket cannot be associated with the completion port, which leaves it open, and when it cannot be
-- bound, after it was closed; else it has made a socket, associated it, and bound it.
pub make_server_socket_lem :
    (win : Win) (port : ℤ) (address : IpAddress) (ip_port : ℕ) (o : Os win)
    → is_v4 address ≡ true
    → Opening win port address ip_port o.calls (make_server_socket win port address ip_port o)
unfolding make_server_socket sys
make_server_socket_lem win port address ip_port o v =
    rw v (opened_lem win port address ip_port o.calls (sys win o socket) refl)
