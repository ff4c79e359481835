-- ===== src/Poller/Poll.antt =====
-- The theorems of one `poll` of io_poller.cpp.
use Prim.Native.Nat.{min}
use dumbo.Base.{
  ℕ, ◌+◌, ◌-◌, ◌^◌, ◌≤◌, ◌<◌, ◌≡◌, sym, ap, ◌∙◌, ◌⊎◌, inl, inr, List, [], ◌++◌, none, some, arith,
  lt→ltb, le→ltb, length, pos, sub_ℕ, min_ℤ,
}
use dumbo.Base.Results.{ok, err, terminated}
use dumbo.Ring.{Ring}
use dumbo.Ring.Refine.{Holds, sizes_lem}
use dumbo.Poller.{
  batch_size, Ready, IoEvent, Kernel, count_event_fd, Lawful, Poller, handle_all, take_ready,
  poll_room, poll,
}
use dumbo.Poller.Deliver.{
  delivered, after_events, handle_all_lem, handle_all_fails, delivered_bound, request_lem,
}

module _ (k : Kernel) {Store : Type 0} (complete : IoEvent → Store → Store) where
  -- With room in the ring `poll` asks for the events.
  poll-take_ready :
      (n : ℕ) (p : Poller k complete) (xs : List ℕ)
      → Holds n p.ring xs
      → length xs < 2 ^ n
      → poll k complete p
        ≡ take_ready k complete p
            (2 ^ n - length xs)
            (k.epoll_pwait p.kernel (min (2 ^ n - length xs) batch_size))
  unfolding poll
  poll-take_ready n p xs h room =
      ap (poll_room k complete p) (sizes_lem n p.ring xs h).2
      ∙ rw (lt→ltb 0 (2 ^ n - length xs) (omega arith))

  -- With room in the ring, with positions that stay below 2 ^ 63, and if the kernel keeps its
  -- bounds and its calls succeed, one `poll` appends exactly the messages of the ready descriptors
  -- and of the finished file operations, in the order of the events, and reports each finished
  -- operation to its message; the ring has room for all of them.
  pub poll_delivers :
      (n : ℕ) (p : Poller k complete) (xs : List ℕ) (evs : List Ready) (ios : List IoEvent)
      → (s t : k.State) → Lawful k
      → Holds n p.ring xs
      → length xs < 2 ^ n
      → p.ring.head + 1024 < 2 ^ 63
      → k.epoll_pwait p.kernel (min (2 ^ n - length xs) batch_size) ≡ (some evs, s)
      → k.io_getevents s (min_ℤ (sub_ℕ (2 ^ n - length xs) (length evs - 1)) (pos batch_size))
        ≡ (some ios, t)
      → (r : Ring ℕ) × (poll k complete p
          ≡ ok (after_events k complete (record p { kernel = s }) evs ios t r))
        × Holds n r (xs ++ delivered evs ios)
  unfolding take_ready
  poll_delivers n p xs evs ios s t law h room small e₁ e₂ =
      let (r, e, h') =
        handle_all_lem k complete n (2 ^ n - length xs) (length evs) evs (record p { kernel = s })
          xs ios t h once e₂ (omega (arith, fits.0)) (omega (arith, fits.1)) in
      (
        r,
        poll-take_ready n p xs h room ∙ ap (take_ready k complete p (2 ^ n - length xs)) e₁ ∙ e,
        h',
      )
    where
      once : count_event_fd evs ≤ 1
      once = law.epoll_once p.kernel _ evs (ap (λ a. a.0) e₁)

      bound : length evs ≤ min (2 ^ n - length xs) batch_size
      bound = law.epoll_bound p.kernel _ evs (ap (λ a. a.0) e₁)

      finished : length ios ≤ min (2 ^ n - length xs - (length evs - 1)) batch_size
      finished = law.aio_bound s _ ios (
          ap (λ a. (k.io_getevents s a).0) (sym (request_lem _ _ (omega (arith, bound))))
          ∙ ap (λ a. a.0) e₂)

      fits : (length (delivered evs ios) ≤ 2 ^ n - length xs) × (length (delivered evs ios) ≤ 1024)
      fits = delivered_bound (2 ^ n - length xs) evs ios once bound finished

  -- With room in the ring and no descriptor ready `poll` delivers nothing.
  pub poll_nothing :
      (n : ℕ) (p : Poller k complete) (xs : List ℕ) (s : k.State)
      → Holds n p.ring xs
      → length xs < 2 ^ n
      → k.epoll_pwait p.kernel (min (2 ^ n - length xs) batch_size) ≡ (some [], s)
      → poll k complete p ≡ ok (record p { kernel = s })
  unfolding take_ready handle_all
  poll_nothing n p xs s h room e =
      poll-take_ready n p xs h room ∙ ap (take_ready k complete p (2 ^ n - length xs)) e

  -- With a full ring `poll` changes nothing: nothing is asked of the kernel.
  pub poll_full :
      (n : ℕ) (p : Poller k complete) (xs : List ℕ)
      → Holds n p.ring xs
      → length xs ≡ 2 ^ n
      → poll k complete p ≡ ok p
  unfolding poll
  poll_full n p xs h full =
      ap (poll_room k complete p) (sizes_lem n p.ring xs h).2
      ∙ rw (le→ltb 0 (2 ^ n - length xs) (omega arith))

  -- With room in the ring, `poll` ends the program if epoll_pwait fails, and if io_getevents fails
  -- when an event names the event descriptor.
  pub poll_terminates :
      (n : ℕ) (p : Poller k complete) (xs : List ℕ) (s t : k.State)
      → Lawful k
      → Holds n p.ring xs
      → length xs < 2 ^ n
      → p.ring.head + 1024 < 2 ^ 63
      → (k.epoll_pwait p.kernel (min (2 ^ n - length xs) batch_size) ≡ (none, s))
        ⊎ ((evs : List Ready) × (k.epoll_pwait p.kernel (min (2 ^ n - length xs) batch_size)
              ≡ (some evs, s))
            × (0 < count_event_fd evs)
            × (k.io_getevents s
                  (min_ℤ (sub_ℕ (2 ^ n - length xs) (length evs - 1)) (pos batch_size))
                ≡ (none, t)))
      → poll k complete p ≡ err terminated
  unfolding take_ready
  poll_terminates n p xs s t law h room small (inl e) =
      poll-take_ready n p xs h room ∙ ap (take_ready k complete p (2 ^ n - length xs)) e
  poll_terminates n p xs s t law h room small (inr (evs, e₁, named, e₂)) =
      poll-take_ready n p xs h room
      ∙ ap (take_ready k complete p (2 ^ n - length xs)) e₁
      ∙ handle_all_fails k complete n (2 ^ n - length xs) (length evs) evs (record p { kernel = s })
          xs t h named e₂ (omega (arith, law.epoll_bound p.kernel _ evs (ap (λ a. a.0) e₁)))
          (omega (arith, law.epoll_bound p.kernel _ evs (ap (λ a. a.0) e₁)))
