-- ===== src/Application/Run/Joins.antt =====
-- The threads of the reactors of application.cpp.
use mathlib.Core.List.{append-nil, append_assoc}
use dumbo.Base.{
  ◌++◌, ℕ, zero, suc, ◌+◌, ◌<◌, ◌≡◌, refl, sym, ap, ◌∙◌, List, [], ◌∷◌, some, false, arith, ltb,
  lt→ltb, inl, inr, Bool-cases,
}
use dumbo.Application.{ReactorInfo, make_reactors}
use dumbo.Application.Run.{Threads, start, start_each, engine, join, join_each}

start-join : (r : ReactorInfo) (t : Threads) → (start r t).started ≡ join r t.started
unfolding start join
start-join r t = elim (Bool-cases r.own_thread) [ inl e ↦ rw e refl | inr e ↦ rw e refl ]

start_each-join_each :
    (rs : List ReactorInfo) (t : Threads) → (start_each rs t).started ≡ join_each rs t.started
unfolding start_each join_each
start_each-join_each [] t = refl
start_each-join_each (r ∷ rs) t =
    start_each-join_each rs (start r t) ∙ ap (join_each rs) (start-join r t)

engine_kept :
    (left c : ℕ) (t : Threads)
    → 0 < c
    → (start_each (make_reactors c left) t).local_engine ≡ t.local_engine
unfolding start_each make_reactors start
engine_kept zero c t h = refl
engine_kept (suc left) c t h =
    engine_kept left (c + 1) (start (record { cpu = c; own_thread = ltb 0 c }) t) (omega arith)
    ∙ rw (lt→ltb 0 c h)

-- For any number of reactors but none, the constructor of the application makes the first reactor
-- the engine of the main thread, and `run` joins exactly the threads that the constructor started,
-- in the same order.
pub threads_lem :
    (n : ℕ) (t : Threads)
    → t.started ≡ []
    → (engine (start_each (make_reactors 0 (suc n)) t) ≡ some 0)
      × (join_each (make_reactors 0 (suc n)) [] ≡ (start_each (make_reactors 0 (suc n)) t).started)
unfolding engine start_each make_reactors start
threads_lem n t e = (
  engine_kept n 1 (start (record { cpu = 0; own_thread = false }) t) (omega arith),
  ap (join_each (make_reactors 0 (suc n))) (sym e)
      ∙ sym (start_each-join_each (make_reactors 0 (suc n)) t),
)

-- The cpus from `c` on.
abbrev pub cpus_from : ℕ → ℕ → List ℕ
cpus_from c zero = []
cpus_from c (suc left) = c ∷ cpus_from (c + 1) left

join_each-cpus_from :
    (left c : ℕ) (joined : List ℕ)
    → 0 < c
    → join_each (make_reactors c left) joined ≡ joined ++ cpus_from c left
unfolding join_each make_reactors join
join_each-cpus_from zero c joined h = sym (append-nil joined)
join_each-cpus_from (suc left) c joined h =
    rw (lt→ltb 0 c h) (join_each-cpus_from left (c + 1) (joined ++ c ∷ []) (omega arith))
    ∙ append_assoc joined (c ∷ []) (cpus_from (c + 1) left)

-- The threads that are joined are those of all reactors but the first one.
pub joined_lem : (m : ℕ) → join_each (make_reactors 0 (suc m)) [] ≡ cpus_from 1 m
unfolding join_each make_reactors join
joined_lem m = join_each-cpus_from m 1 [] (omega arith)
