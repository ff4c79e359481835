-- ===== src/Socket/Tests.antt =====
-- Two kernels, and the theorems of socket_impl.cpp over them.
use dumbo.Base.{
  ℕ, suc, ◌+◌, ◌≡◌, refl, [], ◌∷◌, Bool, true, false, arith, ◌==◌, if◌then◌else◌, ℤ, pos, negsuc,
}
use dumbo.Base.Results.{Result, ok, err, thrown}
use dumbo.IpAddress.{in_addr, is_v4}
use dumbo.Socket.{
  Call, socket, bind, accept_from, read_from, epoll_add, close, wait_for, Net, Os, sys, Connection,
  ServerSocket, connect, make_server_socket, read, accept, eexist,
}
use dumbo.Socket.Transfer.{Transfers, reads, transfer_lem}
use dumbo.Socket.Open.{EitherWay, no_leak}
use dumbo.Socket.Accept.{EpollLaws, resumed, registered, accept_waits, accept_twice}

-- The state counts the reads and the suspensions: the first accept blocks, the first read has 11
-- bytes.
abbrev answer : ℕ → Call → ℤ × ℕ
answer s (read_from fd size) = ((if s == 0 then pos 11 else pos 4), s)
answer s (accept_from fd) = ((if s == 0 then negsuc 0 else pos 5), s)
answer s (wait_for m) = (pos 0, s + 1)
answer s c = (pos 0, s)

abbrev patient : Net
patient = record { State = ℕ; call = answer; errno = λ s. 11 }

abbrev start : Os patient
start = record { kernel = 0; calls = []; spent = λ a. false }

abbrev conn : Connection
conn = record { connection_fd = pos 7; message = 50 }

abbrev server : ServerSocket
server = record { ip_address = in_addr 0; ip_port = 80; socket_fd = pos 3 }

-- The 11 bytes of the first call are not in the result.
transfer_lem_example :
    (r : Os patient × Result ℕ) × Transfers patient (read_from (pos 7) 64) 50 start r
    × (read patient (suc (suc 1)) conn 40 40 64 start ≡ r)
transfer_lem_example = transfer_lem patient reads conn 40 64 1 start

accept_waits_example :
    (o' : Os patient) × (accept patient (suc (suc 1)) server 60 61 start
      ≡ (o', ok (record { connection_fd = pos 5; message = 61 })))
    × (o'.spent 61 ≡ false)
    × (o'.calls
        ≡ accept_from (pos 3)
          ∷ epoll_add (pos 3) 60
          ∷ wait_for 60
          ∷ accept_from (pos 3)
          ∷ epoll_add (pos 5) 61
          ∷ [])
unfolding sys
accept_waits_example =
    accept_waits patient server 60 61 1 0 5 0 start (0, refl, refl) refl refl refl

-- Nobody connects; the state tells whether the socket is watched, and the last errno.
abbrev watch : Bool × ℕ → ℤ × (Bool × ℕ)
watch (true, e) = (negsuc 0, (true, 17))
watch (false, e) = (pos 0, (true, e))

abbrev silent : Bool × ℕ → Call → ℤ × (Bool × ℕ)
silent s (accept_from fd) = (negsuc 0, (s.0, 11))
silent s (epoll_add fd m) = watch s
silent s (bind fd a p) = (negsuc 0, (s.0, 98))
silent s socket = (pos 3, s)
silent s c = (pos 0, s)

abbrev lonely : Net
lonely = record { State = Bool × ℕ; call = silent; errno = λ s. s.1 }

watch-watched : (s : Bool × ℕ) → (watch s).1.0 ≡ true
watch-watched (true, e) = refl
watch-watched (false, e) = refl

watch-again :
    (s : Bool × ℕ) → s.0 ≡ true → (n : ℕ) × ((watch s).0 ≡ negsuc n) × ((watch s).1.1 ≡ 17)
watch-again (true, e) h = (0, refl, refl)
watch-again (false, e) h = absurd (ground (arith, h))

lonely-EpollLaws : EpollLaws lonely
lonely-EpollLaws = record {
  watched = λ s fd. s.0;
  add_watches = λ s fd m n h. watch-watched s;
  add_again = λ s fd m h. watch-again s h;
  wait_keeps = λ s fd m h. h;
  accept_keeps = λ s fd h. h;
}

abbrev idle : Bool → Os lonely
idle w = record { kernel = (w, 0); calls = []; spent = λ a. false }

accept_twice_example : accept lonely (suc (suc 1)) server 60 61 (idle false) ≡ (
  (registered lonely server 60 61 (resumed lonely server 60 61 (idle false))).1,
  err (thrown eexist),
)
unfolding sys
accept_twice_example =
    accept_twice lonely server 60 61 lonely-EpollLaws 1 0 (idle false) (0, refl, refl) refl
      (0, refl, refl)

no_leak_example :
    EitherWay lonely
      (epoll_add (pos 7) 50 ∷ [])
      (close (pos 7))
      conn
      (connect lonely (idle true) (pos 7) 50)
    × EitherWay lonely
        (socket ∷ bind (pos 3) (in_addr 0) 80 ∷ [])
        (close (pos 3))
        server
        (make_server_socket lonely (idle true) (in_addr 0) 80)
unfolding sys is_v4
no_leak_example =
    no_leak lonely (idle true)
      (record { kernel = (true, 0); calls = socket ∷ []; spent = λ a. false }) (pos 7) 3 50 80
      (in_addr 0) refl refl
