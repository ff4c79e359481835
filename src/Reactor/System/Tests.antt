-- ===== src/Reactor/System/Tests.antt =====
-- Two reactors: the first one calls the second one, which takes the call from its inbox.
use mathlib.Core.List.{append-nil, append_assoc}
use dumbo.Base.{
  sym, ◌++◌, ℕ, ◌≡◌, refl, ap, ◌∙◌, List, [], ◌∷◌, some, arith, false, pos, take, ◌==◌, inl, inr,
  Bool-cases,
}
use dumbo.Message.{Message, make_fiber_lambda_message}
use dumbo.Message.Laws.{fresh_call}
use dumbo.Mpsc.Fifo.{visit}
use dumbo.Mpsc.Listed.{listed, listed-Fifo}
use dumbo.Smp.{Smp, receive_all}
use dumbo.Smp.Routing.{IsValid, queued, receive_all_lem, submit_to_lem}
use dumbo.Reactor.{Act, World, put, add_acts, spawns, consume, run_at}
use dumbo.Reactor.Dispatch.{process_fn-spawns}
use dumbo.Reactor.System.{spawned_in, System, Step, calls, receives, Steps, rest, next}
use dumbo.Reactor.Conservation.{Conserved, Steps-Conserved}

abbrev cpus : Smp listed
cpus = record { cpu_num = pos 2; inboxes = (0, []) ∷ (0, []) ∷ [] }

abbrev call : Message ℕ
call = make_fiber_lambda_message 0 40

abbrev world : World ℕ
world = record { store = λ a. call; acts = []; ended = false; finished = [] }

-- Messages that are not answered start fibers.
unanswered :
    (xs : List ℕ) (w : World ℕ)
    → ((a : ℕ) → (w.store a).returned ≡ false)
    → (w' : World ℕ) × (as' : List Act) × (visit consume xs (some w) ≡ some w')
      × (w'.acts ≡ w.acts ++ as')
unanswered [] w h = (w, [], refl, sym (append-nil w.acts))
unanswered (x ∷ xs) w h =
    let (w', as', e, acts) = unanswered xs (add_acts w (spawns x ∷ [])) h in
    (
      w',
      spawns x ∷ as',
      rw (process_fn-spawns w x (h x)) e,
      acts ∙ append_assoc w.acts (spawns x ∷ []) as',
    )

abbrev start : System ℕ listed listed-Fifo
start = record { world = world; smp = cpus; pending = []; made = [] }

cpus-IsValid : IsValid listed cpus 2
cpus-IsValid = record { cpus = refl; boxes = refl }

called :
    (smp : Smp listed) × (run_at listed 0 1 40 7 world cpus ≡ some (put world 7 call, smp))
    × IsValid listed smp 2
unfolding run_at
called =
    let (smp, e, v, q) = submit_to_lem listed listed-Fifo cpus 2 1 7 cpus-IsValid (omega arith) in
    (smp, rw e refl, v)

abbrev after_call : System ℕ listed listed-Fifo
after_call = record start { world = put world 7 call; smp = called.0; made = 7 ∷ [] }

not_answered : (a : ℕ) → (after_call.world.store a).returned ≡ false
not_answered a = elim (Bool-cases (7 == a)) [
  | inl e ↦ rw e (fresh_call ℕ 0 40)
  | inr e ↦ rw e (fresh_call ℕ 0 40)
]

received :
    (k : ℕ) × (smp : Smp listed) × (w : World ℕ) × (as' : List Act) × (receive_all listed called.0
        (pos 1)
        consume
        (some after_call.world)
      ≡ some (k, smp, some w))
    × (w.acts ≡ after_call.world.acts ++ as')
received =
    let (k, smp, e, behind, others, none_left) =
      receive_all_lem listed listed-Fifo called.0 2 1 consume (some after_call.world) called.2
        (omega arith) in
    let (w, as', e', acts) =
      unanswered (take k (queued listed listed-Fifo called.0 1)) after_call.world not_answered in
    (k, smp, w, as', e ∙ ap (λ r. some (k, smp, r)) e', acts)

abbrev taken : List ℕ
taken = take received.0 (queued listed listed-Fifo called.0 1)

abbrev after_receive : System ℕ listed listed-Fifo
after_receive = record after_call {
  world = received.2;
  smp = received.1;
  pending = spawned_in received.3;
}

-- The second reactor takes the call.
abbrev takes : Step ℕ listed listed-Fifo after_call after_receive
takes = receives after_call 1 received.0 received.2 received.1 received.3 received.4 received.5

both : Steps ℕ listed listed-Fifo start after_receive
both =
    next start after_call after_receive (calls start 0 1 40 7 (put world 7 call) called.0 called.1)
      (next after_call after_receive after_receive
        (receives after_call 1 received.0 received.2 received.1 received.3 received.4 received.5)
        (rest after_receive))

Steps-Conserved_example : Conserved listed listed-Fifo after_receive
Steps-Conserved_example = Steps-Conserved listed listed-Fifo start after_receive both (λ a. refl)
