-- ===== src/Poller/Deliver.antt =====
-- What one `poll` of io_poller.cpp puts into the ring, and that it never fills it beyond its room.
use Prim.Native.Nat.{min}
use mathlib.Core.List.{append-nil, append_assoc}
use dumbo.Base.{
  ℕ, suc, ◌+◌, ◌-◌, ◌*◌, ◌^◌, ◌≤◌, ◌<◌, ◌≡◌, refl, ap, ◌∙◌, List, [], ◌∷◌, ◌++◌, map, none, some,
  Bool, true, false, arith, if◌then◌else◌, length, length-append, pos, sub_ℕ, min_ℤ, dec_lt,
}
use dumbo.Base.Results.{ok, err, terminated, ◌>>=◌}
use dumbo.Ring.{Ring}
use dumbo.Ring.Refine.{Holds, push_front_room, head-push_front}
use dumbo.Poller.{
  batch_size, Ready, event_fd, user, IoEvent, Kernel, count_event_fd, Poller, push_message,
  push_events, take_completions, handle_ready, handle_all,
}

-- The messages of the reported events, in order, with those of the finished file operations in the
-- place of the event descriptor.
abbrev pub delivered : List Ready → List IoEvent → List ℕ
delivered [] ios = []
delivered (event_fd ∷ evs) ios = map (λ e. e.message) ios ++ delivered evs ios
delivered (user none ∷ evs) ios = delivered evs ios
delivered (user (some m) ∷ evs) ios = m ∷ delivered evs ios

abbrev pub names_event_fd : List Ready → Bool
names_event_fd [] = false
names_event_fd (event_fd ∷ evs) = true
names_event_fd (user m ∷ evs) = names_event_fd evs

length-message : (ios : List IoEvent) → length (map (λ e. e.message) ios) ≡ length ios
length-message [] = refl
length-message (e ∷ ios) = ap suc (length-message ios)

-- The bound of the events' number that the poller computes its requests by.
pub length-delivered :
    (evs : List Ready) (ios : List IoEvent)
    → length (delivered evs ios) + count_event_fd evs ≤ length evs + count_event_fd evs * length ios
unfolding count_event_fd
length-delivered [] ios = omega arith
length-delivered (event_fd ∷ evs) ios = omega (
  arith,
  length-append (map (λ e. e.message) ios) (delivered evs ios),
  length-message ios,
  length-delivered evs ios,
)
length-delivered (user none ∷ evs) ios = omega (arith, length-delivered evs ios)
length-delivered (user (some m) ∷ evs) ios = omega (arith, length-delivered evs ios)

count_event_fd-le : (evs : List Ready) → count_event_fd evs ≤ length evs
unfolding count_event_fd
count_event_fd-le [] = omega arith
count_event_fd-le (event_fd ∷ evs) = omega (arith, count_event_fd-le evs)
count_event_fd-le (user m ∷ evs) = omega (arith, count_event_fd-le evs)

-- What the requests of `poll` and `poll_file_events` leave room for.
pub delivered_bound :
    (room : ℕ) (evs : List Ready) (ios : List IoEvent)
    → count_event_fd evs ≤ 1
    → length evs ≤ min room batch_size
    → length ios ≤ min (room - (length evs - 1)) batch_size
    → (length (delivered evs ios) ≤ room) × (length (delivered evs ios) ≤ 1024)
delivered_bound room evs ios once p q = elim (dec_lt 0 (count_event_fd evs)) [
  | yes fd ↦
      let e : count_event_fd evs ≡ 1 = omega arith in
      omega
        (arith, length-delivered evs ios, ap (λ (c : ℕ). c * length ios) e, count_event_fd-le evs)
  | no other ↦
      let e : count_event_fd evs ≡ 0 = omega arith in
      omega (arith, length-delivered evs ios, ap (λ (c : ℕ). c * length ios) e)
]

pub request_lem :
    (room m : ℕ)
    → m ≤ room
    → min_ℤ (sub_ℕ room m) (pos batch_size) ≡ pos (min (room - m) batch_size)
request_lem room m h = ground arith

module _ (k : Kernel) {Store : Type 0} (complete : IoEvent → Store → Store) where
  abbrev pub complete_all : List IoEvent → Store → Store
  complete_all [] s = s
  complete_all (e ∷ es) s = complete_all es (complete e s)

  push_message_lem :
      (n : ℕ) (p : Poller k complete) (m : ℕ) (xs : List ℕ)
      → Holds n p.ring xs
      → length xs < 2 ^ n
      → p.ring.head + 1 < 2 ^ 63
      → (r : Ring ℕ) × (push_message k complete p m ≡ ok (record p { ring = r }))
        × Holds n r (xs ++ m ∷ [])
        × (r.head ≡ p.ring.head + 1)
  unfolding push_message
  push_message_lem n p m xs h room small =
      let (r, e, h') = push_front_room n p.ring m xs h room small in
      (r, rw e, h', head-push_front p.ring m e)

  push_events_lem :
      (n : ℕ) (es : List IoEvent) (p : Poller k complete) (xs : List ℕ)
      → Holds n p.ring xs
      → length xs + length es ≤ 2 ^ n
      → p.ring.head + length es < 2 ^ 63
      → (r : Ring ℕ) × (push_events k complete p es
          ≡ ok (record p { ring = r; store = complete_all es p.store }))
        × Holds n r (xs ++ map (λ e. e.message) es)
        × (r.head ≡ p.ring.head + length es)
  unfolding push_events
  push_events_lem n [] p xs h room small = (p.ring, refl, rw append-nil h, omega arith)
  push_events_lem n (e ∷ es) p xs h room small =
      let q : Poller k complete = record p { store = complete e p.store } in
      let (r, e₁, h₁, l₁) = push_message_lem n q e.message xs h (omega arith) (omega arith) in
      let (s, e₂, h₂, l₂) =
        push_events_lem n es (record q { ring = r }) (xs ++ e.message ∷ []) h₁
          (omega (arith, length-append xs (e.message ∷ []))) (omega (arith, l₁)) in
      (s, rw e₁ e₂, rw append_assoc at h₂, omega (arith, l₁, l₂))

  -- Events that do not name the event descriptor.
  handle_users_lem :
      (n capacity total : ℕ) (evs : List Ready) (p : Poller k complete) (xs : List ℕ)
      → (ios : List IoEvent) → Holds n p.ring xs
      → count_event_fd evs ≡ 0
      → length xs + length (delivered evs ios) ≤ 2 ^ n
      → p.ring.head + length (delivered evs ios) < 2 ^ 63
      → (r : Ring ℕ) × (handle_all k complete capacity total p evs ≡ ok (record p { ring = r }))
        × Holds n r (xs ++ delivered evs ios)
  unfolding handle_all count_event_fd
  handle_users_lem n capacity total [] p xs ios h z room small = (p.ring, refl, rw append-nil h)
  handle_users_lem n capacity total (event_fd ∷ evs) p xs ios h z room small = absurd (omega arith)
  handle_users_lem n capacity total (user none ∷ evs) p xs ios h z room small =
      handle_users_lem n capacity total evs p xs ios h z room small
  handle_users_lem n capacity total (user (some m) ∷ evs) p xs ios h z room small =
      let (r, e₁, h₁, l₁) = push_message_lem n p m xs h (omega arith) (omega arith) in
      let (s, e₂, h₂) =
        handle_users_lem n capacity total evs (record p { ring = r }) (xs ++ m ∷ []) ios h₁ z
          (omega (arith, length-append xs (m ∷ []))) (omega (arith, l₁)) in
      (s, rw e₁ e₂, rw append_assoc at h₂)

  -- The poller after a batch of events, of which one at most names the event descriptor.
  abbrev pub after_events :
      Poller k complete → List Ready → List IoEvent → k.State → Ring ℕ → Poller k complete
  after_events p evs ios s r =
      if names_event_fd evs
      then record { ring = r; store = complete_all ios p.store; kernel = s }
      else record p { ring = r }

  handle_event_fd_lem :
      (capacity total : ℕ) (p : Poller k complete) (ios : List IoEvent) (s : k.State)
      → k.io_getevents p.kernel (min_ℤ (sub_ℕ capacity (total - 1)) (pos batch_size))
        ≡ (some ios, s)
      → handle_ready k complete capacity total p event_fd
        ≡ push_events k complete (record p { kernel = s }) ios
  unfolding handle_ready
  handle_event_fd_lem capacity total p ios s e = ap (take_completions k complete p) e

  pub handle_all_lem :
      (n capacity total : ℕ) (evs : List Ready) (p : Poller k complete) (xs : List ℕ)
      → (ios : List IoEvent) (s : k.State) → Holds n p.ring xs
      → count_event_fd evs ≤ 1
      → k.io_getevents p.kernel (min_ℤ (sub_ℕ capacity (total - 1)) (pos batch_size))
        ≡ (some ios, s)
      → length xs + length (delivered evs ios) ≤ 2 ^ n
      → p.ring.head + length (delivered evs ios) < 2 ^ 63
      → (r : Ring ℕ) × (handle_all k complete capacity total p evs
          ≡ ok (after_events p evs ios s r))
        × Holds n r (xs ++ delivered evs ios)
  unfolding handle_all count_event_fd
  handle_all_lem n capacity total [] p xs ios s h once e room small =
      (p.ring, refl, rw append-nil h)
  handle_all_lem n capacity total (user none ∷ evs) p xs ios s h once e room small =
      handle_all_lem n capacity total evs p xs ios s h once e room small
  handle_all_lem n capacity total (user (some m) ∷ evs) p xs ios s h once e room small =
      let (r, e₁, h₁, l₁) = push_message_lem n p m xs h (omega arith) (omega arith) in
      let (t, e₂, h₂) =
        handle_all_lem n capacity total evs (record p { ring = r }) (xs ++ m ∷ []) ios s h₁ once e
          (omega (arith, length-append xs (m ∷ []))) (omega (arith, l₁)) in
      (t, rw e₁ e₂, rw append_assoc at h₂)
  handle_all_lem n capacity total (event_fd ∷ evs) p xs ios s h once e room small =
      let messages : List ℕ = map (λ e. e.message) ios in
      let rest = λ (r : Poller k complete). handle_all k complete capacity total r evs in
      let z : count_event_fd evs ≡ 0 = omega arith in
      let q : Poller k complete = record p { kernel = s } in
      let (r, e₁, h₁, l₁) =
        push_events_lem n ios q xs h
          (omega (arith, length-append messages (delivered evs ios), length-message ios))
          (omega (arith, length-append messages (delivered evs ios), length-message ios)) in
      let (t, e₂, h₂) =
        handle_users_lem n capacity total evs
          (record q { ring = r; store = complete_all ios p.store }) (xs ++ messages) ios h₁ z
          (omega (arith, length-append xs messages, length-append messages (delivered evs ios)))
          (omega (arith, l₁, length-message ios, length-append messages (delivered evs ios))) in
      (
        t,
        ap (λ m. m >>= rest) (handle_event_fd_lem capacity total p ios s e ∙ e₁) ∙ e₂,
        rw append_assoc at h₂,
      )

  pub handle_all_fails :
      (n capacity total : ℕ) (evs : List Ready) (p : Poller k complete) (xs : List ℕ)
      → (s : k.State) → Holds n p.ring xs
      → 0 < count_event_fd evs
      → k.io_getevents p.kernel (min_ℤ (sub_ℕ capacity (total - 1)) (pos batch_size)) ≡ (none, s)
      → length xs + length evs ≤ 2 ^ n
      → p.ring.head + length evs < 2 ^ 63
      → handle_all k complete capacity total p evs ≡ err terminated
  unfolding handle_all count_event_fd
  handle_all_fails n capacity total [] p xs s h named e room small = absurd (omega arith)
  handle_all_fails n capacity total (user none ∷ evs) p xs s h named e room small =
      handle_all_fails n capacity total evs p xs s h named e (omega arith) (omega arith)
  handle_all_fails n capacity total (user (some m) ∷ evs) p xs s h named e room small =
      let (r, e₁, h₁, l₁) = push_message_lem n p m xs h (omega arith) (omega arith) in
      rw e₁ (
        handle_all_fails n capacity total evs (record p { ring = r }) (xs ++ m ∷ []) s h₁ named e
          (omega (arith, length-append xs (m ∷ []))) (omega (arith, l₁)))
  handle_all_fails n capacity total (event_fd ∷ evs) p xs s h named e room small =
      ap (λ a. take_completions k complete p a >>= λ r. handle_all k complete capacity total r evs)
        e
