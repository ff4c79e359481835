-- ===== src/Pool/Invariant.antt =====
-- thread_pool.cpp keeps its workers apart and within its bounds, under any interleaving of its
-- calls with the steps of the workers' threads.
use dumbo.Base.{
  ℕ, zero, suc, ◌+◌, ◌≤◌, ◌<◌, ◌≡◌, refl, sym, ap, ◌∙◌, inl, inr, List, [], ◌∷◌, ◌++◌, Option, none,
  some, arith, false, ==_refl, Option-cases, length, length-append,
}
use dumbo.Base.Members.{count, count-append}
use dumbo.Worker
use dumbo.Worker.{Worker}
use dumbo.Worker.Handoff.{make_worker-running}
use dumbo.Pool.{Pool, update, add_workers, make_pool, split_last, take_free, acquire_worker}

-- The bounds of the two lists; a worker stands once in one of them at most; `new` gives an address
-- that no worker has.
pub record IsValid (p : Pool) : Type 0 where
  pub few_free : length p.free ≤ p.min_size
  pub few_busy : length p.busy ≤ p.max_size
  pub once : (a : ℕ) → count a p.free + count a p.busy ≤ 1
  pub known : (a : ℕ) → 0 < count a p.free + count a p.busy → (0 < a) × (a < p.next)
  pub positive : 0 < p.next

-- No worker of the lists has been told to stop.
pub record IsRunning (p : Pool) : Type 0 where
  pub running : (a : ℕ) → 0 < count a p.free + count a p.busy → (p.worker a).stopping ≡ false

pub split_last_cons :
    (x : ℕ) (xs zs : List ℕ) (z : ℕ)
    → split_last xs ≡ some (zs, z)
    → split_last (x ∷ xs) ≡ some (x ∷ zs, z)
unfolding split_last
split_last_cons x xs zs z e = rw e

split_last-none : (xs : List ℕ) → split_last xs ≡ none → xs ≡ []
unfolding split_last
split_last-none [] e = refl
split_last-none (x ∷ xs) e = ground arith

split_last_one : (x : ℕ) (xs : List ℕ) → split_last xs ≡ none → split_last (x ∷ xs) ≡ some ([], x)
unfolding split_last
split_last_one x xs e = rw e

some_pair :
    (xs ys : List ℕ) (x y : ℕ)
    → ◌≡◌ {A = Option (List ℕ × ℕ)} (some (xs, x)) (some (ys, y))
    → xs ++ x ∷ [] ≡ ys ++ y ∷ []
some_pair xs ys x y e = cc

split_last_lem : (xs ys : List ℕ) (a : ℕ) → split_last xs ≡ some (ys, a) → xs ≡ ys ++ a ∷ []
unfolding split_last
split_last_lem [] ys a e = cc
split_last_lem (x ∷ xs) ys a e = elim (Option-cases (split_last xs)) [
  | inl n ↦
      ap (◌∷◌ x) (split_last-none xs n) ∙ some_pair [] ys x a (sym (split_last_one x xs n) ∙ e)
  | inr ((zs, z), n) ↦
      ap (◌∷◌ x) (split_last_lem xs zs z n)
      ∙ some_pair (x ∷ zs) ys z a (sym (split_last_cons x xs zs z n) ∙ e)
]

-- What `acquire_worker` does: it takes the last free worker, or makes a new one.
pub record Acquired (p : Pool) (r : ℕ × Pool) : Type 0 where
  pub valid : IsValid r.1
  pub busy : r.1.busy ≡ p.busy ++ r.0 ∷ []
  pub idle : count r.0 p.busy ≡ 0
  pub limit : r.1.max_size ≡ p.max_size
  pub running : IsRunning p → IsRunning r.1

take_free-Acquired :
    (p : Pool) (o : Option (List ℕ × ℕ))
    → IsValid p
    → length p.busy < p.max_size
    → split_last p.free ≡ o
    → Acquired p (take_free p o)
unfolding take_free
take_free-Acquired p none v room e =
    let empty : p.free ≡ [] = split_last-none p.free e in
    let fresh : count p.next p.free + count p.next p.busy ≡ 0 = grind (arith, v.known p.next) in
    record {
      valid = record {
        few_free = v.few_free;
        few_busy = omega (arith, length-append p.busy (p.next ∷ []));
        once = λ a. ground (arith, count-append a p.busy (p.next ∷ []), v.once a, fresh);
        known =
            λ a h. ground (arith, count-append a p.busy (p.next ∷ []), v.known a, v.positive, h);
        positive = omega arith;
      };
      busy = refl;
      idle = omega (arith, fresh);
      limit = refl;
      running = λ g. record {
        running = λ a h.
            ground
              (arith, count-append a p.busy (p.next ∷ []), g.running a, make_worker-running, h);
      };
    }
take_free-Acquired p (some (rest, b)) v room e =
    let split : p.free ≡ rest ++ b ∷ [] = split_last_lem p.free rest b e in
    record {
      valid = record {
        few_free = omega (arith, ap length split, length-append rest (b ∷ []), v.few_free);
        few_busy = omega (arith, length-append p.busy (b ∷ []));
        once = λ a. ground (
          arith,
          count-append a p.busy (b ∷ []),
          count-append a rest (b ∷ []),
          ap (count a) split,
          v.once a,
        );
        known = λ a h. ground (
          arith,
          count-append a p.busy (b ∷ []),
          count-append a rest (b ∷ []),
          ap (count a) split,
          v.known a,
          h,
        );
        positive = v.positive;
      };
      busy = refl;
      idle = ground (arith, count-append b rest (b ∷ []), ap (count b) split, v.once b, ==_refl b);
      limit = refl;
      running = λ g. record {
        running = λ a h. ground (
          arith,
          count-append a p.busy (b ∷ []),
          count-append a rest (b ∷ []),
          ap (count a) split,
          g.running a,
          h,
        );
      };
    }

pub acquire_worker-Acquired :
    (p : Pool) → IsValid p → length p.busy < p.max_size → Acquired p (acquire_worker p)
unfolding acquire_worker
acquire_worker-Acquired p v room = take_free-Acquired p (split_last p.free) v room refl

pub assign-IsValid :
    (p : Pool) (a : ℕ) (w : Worker)
    → IsValid p
    → IsValid (record p { worker = update p.worker a w })
assign-IsValid p a w v = record {
  few_free = v.few_free;
  few_busy = v.few_busy;
  once = v.once;
  known = v.known;
  positive = v.positive;
}

add_workers-IsValid :
    (n : ℕ) (p : Pool)
    → IsValid p
    → length p.free + n ≤ p.min_size
    → IsValid (add_workers n p)
      × (length (add_workers n p).free ≡ length p.free + n)
      × ((add_workers n p).busy ≡ p.busy)
unfolding add_workers
add_workers-IsValid zero p v h = (v, omega arith, refl)
add_workers-IsValid (suc n) p v h =
    let q : Pool = record p {
      worker = update p.worker p.next Worker.make_worker;
      next = p.next + 1;
      free = p.free ++ p.next ∷ [];
    } in
    let fresh : count p.next p.free + count p.next p.busy ≡ 0 = grind (arith, v.known p.next) in
    let (v', l, b) =
      add_workers-IsValid n q
        (record {
          few_free = omega (arith, length-append p.free (p.next ∷ []));
          few_busy = v.few_busy;
          once = λ a. ground (arith, count-append a p.free (p.next ∷ []), v.once a, fresh);
          known =
              λ a h. ground (arith, count-append a p.free (p.next ∷ []), v.known a, v.positive, h);
          positive = omega arith;
        })
        (omega (arith, length-append p.free (p.next ∷ []))) in
    (v', omega (arith, l, length-append p.free (p.next ∷ [])), b)

-- The constructor makes a valid pool with `min_size` free workers, none of them busy.
pub make_pool-IsValid :
    (min_size max_size : ℕ)
    → let p = make_pool min_size max_size in IsValid p × (length p.free ≡ min_size) × (p.busy ≡ [])
unfolding make_pool
make_pool-IsValid min_size max_size =
    let (v, l, e) =
      add_workers-IsValid min_size
        (record {
          min_size = min_size;
          max_size = max_size;
          free = [];
          busy = [];
          worker = λ a. Worker.make_worker;
          next = 1;
        })
        (record {
          few_free = omega arith;
          few_busy = omega arith;
          once = λ a. omega arith;
          known = λ a h. absurd (omega arith);
          positive = omega arith;
        })
        (omega arith) in
    (v, omega (arith, l), e)
