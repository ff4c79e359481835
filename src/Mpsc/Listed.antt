-- ===== src/Mpsc/Listed.antt =====
-- A disruptor that keeps its events in a list: it meets what mpsc_queue.hpp relies on.
use dumbo.Base.{ℕ, zero, suc, ◌≡◌, refl, List, [], ◌∷◌, ◌++◌, some, arith, length, get_elem?, drop}
use dumbo.Mpsc.{Disruptor}
use dumbo.Mpsc.Fifo.{Fifo}

-- The event of a number, 0 where there is none.
abbrev pub event_at : List ℕ → ℕ → ℕ
event_at [] c = 0
event_at (x ∷ xs) zero = x
event_at (x ∷ xs) (suc c) = event_at xs c

-- The claimed value waits beside the published ones.
abbrev pub listed : Disruptor ℕ
listed = record {
  State = ℕ × List ℕ;
  claim = λ s n. (length s.1, s);
  write = λ s idx x. (x, s.1);
  publish = λ s idx n. (0, s.1 ++ s.0 ∷ []);
  has_events = λ s. (length s.1, s);
  get_event = λ s c. event_at s.1 c;
  get_current_event = λ s. event_at s.1 0;
  commit = λ s n. (s.0, drop n s.1);
}

pub event_at_lem : (xs : List ℕ) (c x : ℕ) → get_elem? xs c ≡ some x → event_at xs c ≡ x
event_at_lem [] c x e = cc
event_at_lem (y ∷ xs) zero x e = cc
event_at_lem (y ∷ xs) (suc c) x e = event_at_lem xs c x e

pub none_of_zero : (xs : List ℕ) → length xs ≡ 0 → xs ≡ []
none_of_zero [] e = refl
none_of_zero (x ∷ xs) e = absurd (omega arith)

abbrev pub listed-Fifo : Fifo listed
listed-Fifo = record {
  contents = λ s. s.1;
  send_contents = λ s x. refl;
  has_events_bound = λ s. omega arith;
  has_events_zero = λ s. none_of_zero s.1;
  has_events_contents = λ s. refl;
  get_event_contents = λ s. event_at_lem s.1;
  commit_contents = λ s n. refl;
}
