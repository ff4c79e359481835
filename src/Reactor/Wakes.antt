-- ===== src/Reactor/Wakes.antt =====
-- The fibers that `process_fn` of reactor.cpp makes ready.
use mathlib.Core.List.{append-nil, append_assoc}
use dumbo.Base.{
  ℕ, ◌≡◌, refl, sym, ap, ◌∙◌, List, [], ◌∷◌, ◌++◌, some, arith, true, false, ◌==◌, ne→==,
  if◌then◌else◌, Bool, ◌||◌, ==_refl,
}
use dumbo.Base.Members.{is_in, is_in-append, Distinct}
use dumbo.Mpsc.Fifo.{visit}
use dumbo.Message.{Message, Effect, resume, delete, rethrow}
use dumbo.Message.Resumes.{resumed, resumed_class, finish-resumes, rethrows, throws_class}
use dumbo.Reactor.{
  Act, does, spawns, World, effects_of, process_fn, process_branch, finish_at, consume, leave,
  throws_out,
}
use dumbo.Reactor.Drain.{process_all}

-- The fibers that acts resume, in order.
unfoldable pub resumed_by : List Act → List ℕ
resumed_by [] = []
resumed_by (does a (resume c) ∷ as') = c ∷ resumed_by as'
resumed_by (does a delete ∷ as') = resumed_by as'
resumed_by (does a (rethrow e) ∷ as') = resumed_by as'
resumed_by (spawns a ∷ as') = resumed_by as'

resumed_by-append : (us vs : List Act) → resumed_by (us ++ vs) ≡ resumed_by us ++ resumed_by vs
unfolding resumed_by
resumed_by-append [] vs = refl
resumed_by-append (does a (resume c) ∷ us) vs = ap (◌∷◌ c) (resumed_by-append us vs)
resumed_by-append (does a delete ∷ us) vs = resumed_by-append us vs
resumed_by-append (does a (rethrow e) ∷ us) vs = resumed_by-append us vs
resumed_by-append (spawns a ∷ us) vs = resumed_by-append us vs

resumed_by-effects_of : (a : ℕ) (es : List Effect) → resumed_by (effects_of a es) ≡ resumed es
unfolding resumed_by effects_of resumed
resumed_by-effects_of a [] = refl
resumed_by-effects_of a (resume c ∷ es) = ap (◌∷◌ c) (resumed_by-effects_of a es)
resumed_by-effects_of a (delete ∷ es) = resumed_by-effects_of a es
resumed_by-effects_of a (rethrow e ∷ es) = resumed_by-effects_of a es

throws_out-rethrows : (es : List Effect) → throws_out es ≡ rethrows es
unfolding throws_out rethrows
throws_out-rethrows [] = refl
throws_out-rethrows (resume c ∷ es) = throws_out-rethrows es
throws_out-rethrows (delete ∷ es) = throws_out-rethrows es
throws_out-rethrows (rethrow e ∷ es) = refl

apart : (x b : ℕ) (xs : List ℕ) → is_in x xs ≡ false → is_in b xs ≡ true → (x == b) ≡ false
apart x b xs h p = ne→== x b (λ same. ground (arith, h, p, ap (λ c. is_in c xs) same))

neither : (a b : Bool) → (a || b) ≡ false → (a ≡ false) × (b ≡ false)
neither false b h = (refl, h)
neither true b h = absurd (ground (arith, h))

module _ {R : Type 0} where
  -- The fiber that a message resumes when it is taken from the ring or from an inbox.
  abbrev pub wakes : Message R → List ℕ
  wakes m = if m.returned then resumed_class m.class else []

  -- The message is answered, and an exception leaves its `finish`.
  abbrev pub throws_from : Message R → Bool
  throws_from m = if m.returned then throws_class m.class m.exception else false

  abbrev pub wakes_all : (ℕ → Message R) → List ℕ → List ℕ
  wakes_all store [] = []
  wakes_all store (a ∷ as') = wakes (store a) ++ wakes_all store as'

  -- An exception leaves `process_fn` for one of the messages.
  abbrev pub throws_all : (ℕ → Message R) → List ℕ → Bool
  throws_all store [] = false
  throws_all store (a ∷ as') = throws_from (store a) || throws_all store as'

  -- What `process_fn` leaves: new acts that resume the fibers `cs`, and every message but that at `a`.
  abbrev pub Woken : (ℕ → Bool) → List ℕ → World R → World R → Type 0
  Woken touched cs w w' =
      (as' : List Act) × (w'.acts ≡ w.acts ++ as')
      × (resumed_by as' ≡ cs)
      × ((b : ℕ) → touched b ≡ false → w'.store b ≡ w.store b)

  branch-Woken :
      (b : Bool) (a : ℕ) (w : World R)
      → (w.store a).returned ≡ b
      → is_in 0 (if b then resumed_class (w.store a).class else []) ≡ false
      → (if b then throws_class (w.store a).class (w.store a).exception else false) ≡ false
      → (w' : World R) × (process_branch b a w ≡ some w')
        × Woken (λ c. a == c) (if b then resumed_class (w.store a).class else []) w w'
  unfolding process_branch finish_at leave resumed_by
  branch-Woken true a w e h quiet =
      let (m', es, finished, woken, thrown) = finish-resumes (w.store a) h in
      (
        record w {
          store = λ b. if a == b then m' else w.store b;
          acts = w.acts ++ effects_of a es;
          finished = w.finished ++ a ∷ [];
        },
        rw (finished, throws_out-rethrows es ∙ thrown ∙ quiet),
        (effects_of a es, refl, resumed_by-effects_of a es ∙ woken, λ b other. rw other),
      )
  branch-Woken false a w e h quiet = (
    record w { acts = w.acts ++ spawns a ∷ [] },
    refl,
    (spawns a ∷ [], refl, refl, λ b other. refl),
  )

  wakes_all-same :
      (s s' : ℕ → Message R) (xs : List ℕ)
      → ((b : ℕ) → is_in b xs ≡ true → s' b ≡ s b)
      → wakes_all s' xs ≡ wakes_all s xs
  wakes_all-same s s' [] h = refl
  wakes_all-same s s' (x ∷ xs) h =
      ap (λ m. wakes m ++ wakes_all s' xs) (h x (rw (==_refl x) refl))
      ∙ ap (λ cs. wakes (s x) ++ cs) (wakes_all-same s s' xs (λ b p. h b (ground (arith, p))))

  throws_all-same :
      (s s' : ℕ → Message R) (xs : List ℕ)
      → ((b : ℕ) → is_in b xs ≡ true → s' b ≡ s b)
      → throws_all s' xs ≡ throws_all s xs
  throws_all-same s s' [] h = refl
  throws_all-same s s' (x ∷ xs) h =
      ap (λ m. throws_from m || throws_all s' xs) (h x (rw (==_refl x) refl))
      ∙ ap (λ b. throws_from (s x) || b) (throws_all-same s s' xs (λ b p. h b (ground (arith, p))))

  pub throws_all-prefix :
      (s : ℕ → Message R) (xs ys : List ℕ)
      → throws_all s (xs ++ ys) ≡ false
      → throws_all s xs ≡ false
  throws_all-prefix s [] ys h = refl
  throws_all-prefix s (x ∷ xs) ys h =
      let (one, more) = neither (throws_from (s x)) (throws_all s (xs ++ ys)) h in
      rw (one, throws_all-prefix s xs ys more) refl

  pub wakes_all-append :
      (s : ℕ → Message R) (xs ys : List ℕ)
      → wakes_all s (xs ++ ys) ≡ wakes_all s xs ++ wakes_all s ys
  wakes_all-append s [] ys = refl
  wakes_all-append s (x ∷ xs) ys =
      ap (λ cs. wakes (s x) ++ cs) (wakes_all-append s xs ys)
      ∙ sym (append_assoc (wakes (s x)) (wakes_all s xs) (wakes_all s ys))

  -- Messages of which none stands twice, and that resume no null pointer and throw nothing, are all processed: they
  -- resume their fibers in order, and no other message is changed.
  pub process_all-Woken :
      (xs : List ℕ) (w : World R)
      → Distinct xs
      → is_in 0 (wakes_all w.store xs) ≡ false
      → throws_all w.store xs ≡ false
      → (w' : World R) × (process_all xs w ≡ some w')
        × Woken (λ c. is_in c xs) (wakes_all w.store xs) w w'
  unfolding process_fn resumed_by
  process_all-Woken [] w d h quiet = (w, refl, ([], sym (append-nil w.acts), refl, λ b other. refl))
  process_all-Woken (x ∷ xs) w d h quiet =
      let (one, more) = neither (throws_from (w.store x)) (throws_all w.store xs) quiet in
      let (w₁, e₁, (as₁, acts₁, woken₁, same₁)) =
        branch-Woken (w.store x).returned x w refl
          (ground (arith, h, is_in-append 0 (wakes (w.store x)) (wakes_all w.store xs))) one in
      let later : wakes_all w₁.store xs ≡ wakes_all w.store xs =
        wakes_all-same w.store w₁.store xs (λ b p. same₁ b (apart x b xs d.0 p)) in
      let (w₂, e₂, (as₂, acts₂, woken₂, same₂)) =
        process_all-Woken xs w₁ d.1
          (ap (is_in 0) later
            ∙ ground (arith, h, is_in-append 0 (wakes (w.store x)) (wakes_all w.store xs)))
          (throws_all-same w.store w₁.store xs (λ b p. same₁ b (apart x b xs d.0 p)) ∙ more) in
      (
        w₂,
        ap (visit consume xs) e₁ ∙ e₂,
        (
          as₁ ++ as₂,
          acts₂ ∙ ap (λ as'. as' ++ as₂) acts₁ ∙ append_assoc w.acts as₁ as₂,
          resumed_by-append as₁ as₂
              ∙ ap (λ cs. cs ++ resumed_by as₂) woken₁
              ∙ ap (λ cs. wakes (w.store x) ++ cs) (woken₂ ∙ later),
          λ b other. same₂ b (ground (arith, other)) ∙ same₁ b (ground (arith, other)),
        ),
      )
