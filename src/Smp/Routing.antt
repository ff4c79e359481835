-- ===== src/Smp/Routing.antt =====
-- Where smp_base.hpp puts a message, and who gets it.
use mathlib.Core.List.{append-nil, append_assoc}
use dumbo.Base.{
  get_elem?_lt, ℕ, zero, suc, ◌≤◌, ◌<◌, ◌≡◌, ◌≢◌, refl, sym, ap, ◌∙◌, List, [], ◌∷◌, ◌++◌, Option,
  none, some, arith, true, lt→ltb, le→ltb, le→leb, ne→==, ℕ_discrete, ◌==◌, ==_refl, if◌then◌else◌,
  ℤ, pos, negsuc, length, get_elem?, set, length-set, get_elem?-set_self, get_elem?-set_ne, take,
  drop,
}
use dumbo.Base.Faults.{◌>>=◌}
use dumbo.Mpsc
use dumbo.Mpsc.{Disruptor}
use dumbo.Mpsc.Fifo.{Fifo, visit, send_lem, get_all_lem}
use dumbo.Smp.{Smp, make_inboxes, make_smp, submit_to, receive, receive_all}

module _ {A : Type 0} (d : Disruptor A) where
  -- As many inboxes as cpus.
  pub record IsValid (s : Smp d) (n : ℕ) : Type 0 where
    pub cpus : s.cpu_num ≡ pos n
    pub boxes : length s.inboxes ≡ n

  length-make_inboxes : (fresh : d.State) (n : ℕ) → length (make_inboxes d fresh n) ≡ n
  unfolding make_inboxes
  length-make_inboxes fresh zero = refl
  length-make_inboxes fresh (suc n) = ap suc (length-make_inboxes fresh n)

  pub make_smp-IsValid : (fresh : d.State) (n : ℕ) → IsValid (make_smp d fresh (pos n)) n
  unfolding make_smp
  make_smp-IsValid fresh n = record { cpus = refl; boxes = length-make_inboxes fresh n }

  abbrev pub OutOfRange : ℕ → ℤ → Type 0
  OutOfRange n (pos c) = n ≤ c
  OutOfRange n (negsuc c) = Unit

  -- A cpu that is negative or not below the number of cpus fails the assertion, in each call.
  pub out_of_range_lem :
      {W : Type 0} (s : Smp d) (n : ℕ) (cpu : ℤ) (x : A) (size : ℕ) (fn : A → W → W) (w : W)
      → IsValid s n
      → OutOfRange n cpu
      → (submit_to d s cpu x ≡ none)
        × (receive d s cpu size fn w ≡ none)
        × (receive_all d s cpu fn w ≡ none)
  unfolding submit_to receive receive_all
  out_of_range_lem s n (pos c) x size fn w v h =
      rw (v.cpus, le→ltb c n h, le→leb 0 c (omega arith)) (refl, refl, refl)
  out_of_range_lem s n (negsuc c) x size fn w v h = (refl, refl, refl)

  module _ (f : Fifo d) where
    open f use {contents}

    abbrev events : Option d.State → List A
    events none = []
    events (some q) = contents q

    -- What is queued for a cpu.
    abbrev pub queued : Smp d → ℕ → List A
    queued s c = events (get_elem? s.inboxes c)

    queued-inboxes :
        (fresh : d.State) (n c : ℕ)
        → contents fresh ≡ []
        → events (get_elem? (make_inboxes d fresh n) c) ≡ []
    unfolding make_inboxes
    queued-inboxes fresh zero c e = refl
    queued-inboxes fresh (suc n) zero e = e
    queued-inboxes fresh (suc n) (suc c) e = queued-inboxes fresh n c e

    -- The inboxes that are made of an empty queue are empty.
    pub queued-make_smp :
        (fresh : d.State) (n c : ℕ) → contents fresh ≡ [] → queued (make_smp d fresh (pos n)) c ≡ []
    unfolding make_smp
    queued-make_smp fresh n c e = queued-inboxes fresh n c e

    queued-set :
        (s : Smp d) (c e : ℕ) (q : d.State)
        → c < length s.inboxes
        → queued (record s { inboxes = set s.inboxes c q }) e
          ≡ (if c == e then contents q else queued s e)
    queued-set s c e q h = elim (ℕ_discrete c e) [
      | yes same ↦ rw (← same, ==_refl c) (ap events (get_elem?-set_self s.inboxes c q h))
      | no other ↦ rw (ne→== c e other) (ap events (get_elem?-set_ne s.inboxes c e q other))
    ]

    -- A message goes behind those of its cpu, and no other inbox changes.
    pub submit_to_lem :
        (s : Smp d) (n c : ℕ) (x : A)
        → IsValid s n
        → c < n
        → (s' : Smp d) × (submit_to d s (pos c) x ≡ some (true, s'))
          × IsValid s' n
          × ((e : ℕ) → queued s' e ≡ (if c == e then queued s e ++ x ∷ [] else queued s e))
    unfolding submit_to Mpsc.send
    submit_to_lem s n c x v h =
        let (q, e) = get_elem?_lt s.inboxes c (omega (arith, v.boxes)) in
        let q' = (Mpsc.send d q x).1 in
        (
          record s { inboxes = set s.inboxes c q' },
          rw (v.cpus, lt→ltb c n h, le→leb 0 c (omega arith), e),
          record { cpus = v.cpus; boxes = length-set s.inboxes c q' ∙ v.boxes },
          λ i. queued-set s c i q' (omega (arith, v.boxes)) ∙ behind i q e,
        )
      where
        behind :
            (i : ℕ) (q : d.State)
            → get_elem? s.inboxes c ≡ some q
            → (if c == i then contents (Mpsc.send d q x).1 else queued s i)
              ≡ (if c == i then queued s i ++ x ∷ [] else queued s i)
        behind i q e = elim (ℕ_discrete c i) [
          | yes same ↦ rw (← same, ==_refl c, e) (send_lem d f q x)
          | no other ↦ rw (ne→== c i other)
        ]

    -- The messages of a list of submissions that go to a cpu.
    abbrev pub addressed : ℕ → List (ℕ × A) → List A
    addressed e [] = []
    addressed e ((c, x) ∷ ms) = if c == e then x ∷ addressed e ms else addressed e ms

    -- Submissions in a row; all or none.
    unfoldable pub submit_each : Smp d → List (ℕ × A) → Option (Smp d)
    submit_each s [] = some s
    submit_each s ((c, x) ∷ ms) = submit_to d s (pos c) x >>= λ r. submit_each r.1 ms

    abbrev pub Below : ℕ → List (ℕ × A) → Type 0
    Below n [] = Unit
    Below n ((c, x) ∷ ms) = (c < n) × Below n ms

    -- After submissions to valid cpus, the inbox of each cpu has exactly the messages that were
    -- addressed to it, in the order of submission, behind those that it had. No submission fails.
    pub submit_each_lem :
        (ms : List (ℕ × A)) (s : Smp d) (n : ℕ)
        → IsValid s n
        → Below n ms
        → (s' : Smp d) × (submit_each s ms ≡ some s')
          × IsValid s' n
          × ((e : ℕ) → queued s' e ≡ queued s e ++ addressed e ms)
    unfolding submit_each
    submit_each_lem [] s n v b = (s, refl, v, λ e. sym (append-nil (queued s e)))
    submit_each_lem ((c, x) ∷ ms) s n v b =
        let (s₁, e₁, v₁, q₁) = submit_to_lem s n c x v b.0 in
        let (s₂, e₂, v₂, q₂) = submit_each_lem ms s₁ n v₁ b.1 in
        (s₂, rw e₁ e₂, v₂, λ e. q₂ e ∙ ap (λ xs. xs ++ addressed e ms) (q₁ e) ∙ place e)
      where
        place :
            (e : ℕ)
            → (if c == e then queued s e ++ x ∷ [] else queued s e) ++ addressed e ms
              ≡ queued s e ++ (if c == e then x ∷ addressed e ms else addressed e ms)
        place e = elim (ℕ_discrete c e) [
          | yes same ↦ rw (same, ==_refl e) (append_assoc (queued s e) (x ∷ []) (addressed e ms))
          | no other ↦ rw (ne→== c e other)
        ]

    receive_all-some :
        {W : Type 0} (s : Smp d) (n c : ℕ) (q : d.State) (fn : A → W → W) (w : W)
        → IsValid s n
        → c < n
        → get_elem? s.inboxes c ≡ some q
        → let r = Mpsc.get_all d fn q w in
          receive_all d s (pos c) fn w ≡ some (r.0, record s { inboxes = set s.inboxes c r.1 }, r.2)
    unfolding receive_all
    receive_all-some s n c q fn w v h e = rw (v.cpus, lt→ltb c n h, le→leb 0 c (omega arith), e)

    -- `receive_all` hands the events that the target's inbox shows to the consumer in order, and
    -- takes nothing from another cpu. It takes none only if none is there.
    pub receive_all_lem :
        {W : Type 0} (s : Smp d) (n c : ℕ) (fn : A → W → W) (w : W)
        → IsValid s n
        → c < n
        → (k : ℕ) × (s' : Smp d) × (receive_all d s (pos c) fn w
            ≡ some (k, s', visit fn (take k (queued s c)) w))
          × (queued s' c ≡ drop k (queued s c))
          × ((e : ℕ) → c ≢ e → queued s' e ≡ queued s e)
          × (k ≡ 0 → queued s c ≡ [])
    receive_all_lem s n c fn w v h =
        let (q, e) = get_elem?_lt s.inboxes c (omega (arith, v.boxes)) in
        let r = Mpsc.get_all d fn q w in
        let (took, seen) = get_all_lem d f fn q w in
        let s' : Smp d = record s { inboxes = set s.inboxes c r.1 } in
        let same : queued s c ≡ contents q = ap events e in
        let moved = λ (i : ℕ). queued-set s c i r.1 (omega (arith, v.boxes)) in
        (
          r.0,
          s',
          receive_all-some s n c q fn w v h e
              ∙ ap (λ w'. some (r.0, s', w'))
                  (took.visited ∙ ap (λ xs. visit fn (take r.0 xs) w) (sym same)),
          moved c ∙ rw (==_refl c) (took.rest ∙ ap (drop r.0) (sym same)),
          λ i other. moved i ∙ rw (ne→== c i other),
          λ z. same ∙ seen z,
        )
