-- ===== src/Ring/Refine.antt =====
-- What the ring of ring_buffer.hpp holds, and that it behaves as a bounded first-in first-out
-- queue.
use native.Mathlib.Nat.{mod-add-mod, mod-eq_of_lt, mod-eq-sub-mod, mod-lt}
use dumbo.Base.{
  ℕ, suc, ◌+◌, ◌-◌, ◌%◌, ◌^◌, ◌≤◌, ◌<◌, ◌≡◌, refl, sym, ap, ◌∙◌, ◌≢◌, ◌⊎◌, inl, inr, List, [], ◌∷◌,
  ◌++◌, none, some, arith, lt→ltb, bit_and, length, get_elem?, set, length-set, length-append,
  length-replicate, get_elem?-set_self, get_elem?-set_ne, get_elem?-append_left,
  get_elem?-append_last, dec_lt, pos, to_int32_lem,
}
use dumbo.Base.Bits.{bit_and_mask, pow_pos}
use dumbo.Ring.{Ring, new, ring_size, available, capacity, capacity_i, idx, pop_back, push_front}

-- A sum below twice the modulus wraps once at most.
mod_wrap : (a n : ℕ) → a < n + n → (a % n ≡ a) × (a < n) ⊎ (a % n ≡ a - n) × (n ≤ a)
mod_wrap a n h = elim (dec_lt a n) [
  | yes p ↦ inl (mod-eq_of_lt p, p)
  | no p ↦ inr (
    mod-eq-sub-mod {n = a} {m = n} (omega arith) ∙ mod-eq_of_lt {n = a - n} {m = n} (omega arith),
    omega arith,
  )
]

-- Two cells of one window are different.
mod-add-ne : (t i j n : ℕ) → i < j → j < n → (t + i) % n ≢ (t + j) % n
mod-add-ne t i j n p q e = omega (
  arith,
  mod_wrap (t % n + i) n (omega (arith, mod-lt t {m = n} (omega arith))),
  mod_wrap (t % n + j) n (omega (arith, mod-lt t {m = n} (omega arith))),
  mod-add-mod t n i,
  mod-add-mod t n j,
  mod-lt t {m = n} (omega arith),
)

module _ {ℓ} {A : Type ℓ} where
  -- The ring of 2 ^ k cells holds the values `xs`, oldest first.
  pub record Holds (k : ℕ) (r : Ring A) (xs : List A) : Type ℓ where
    pub small : 2 ^ k < 2 ^ 31
    pub sized : length r.buffer ≡ 2 ^ k
    pub fits : length xs ≤ 2 ^ k
    pub span : r.head ≡ r.tail + length xs
    pub in_range : r.head < 2 ^ 63
    pub cells : (i : ℕ) → i < length xs → get_elem? r.buffer ((r.tail + i) % 2 ^ k) ≡ get_elem? xs i

  pub idx_lem : (k : ℕ) (r : Ring A) {xs : List A} → Holds k r xs → (i : ℕ) → idx r i ≡ i % 2 ^ k
  unfolding idx
  idx_lem k r h i = ap (bit_and i) (omega (arith, h.small, h.sized, pow_pos k)) ∙ bit_and_mask k i

  pub available_lem : (k : ℕ) (r : Ring A) {xs : List A} → Holds k r xs → available r ≡ length xs
  unfolding available
  available_lem k r h = omega (arith, h.small, h.fits, h.span)

  pub new-Holds : (null : A) (k : ℕ) → 2 ^ k < 2 ^ 31 → Holds k (new null (2 ^ k)) []
  unfolding new
  new-Holds null k h = record {
    small = h;
    sized = length-replicate (2 ^ k) null;
    fits = omega arith;
    span = refl;
    in_range = omega arith;
    cells = λ i p. elim p [ ];
  }

  pub capacity_lem :
      (k : ℕ) (r : Ring A) (xs : List A) → Holds k r xs → capacity r ≡ 2 ^ k - length xs
  unfolding capacity ring_size
  capacity_lem k r xs h = omega (arith, h.small, h.fits, h.sized, available_lem k r h)

  -- `available`, `capacity` and `capacity_i` tell the number of values held, and the room left.
  pub sizes_lem :
      (k : ℕ) (r : Ring A) (xs : List A)
      → Holds k r xs
      → (available r ≡ length xs)
        × (capacity r + length xs ≡ ring_size r)
        × (capacity_i r ≡ pos (2 ^ k - length xs))
  unfolding capacity capacity_i ring_size
  sizes_lem k r xs h = (available_lem k r h, omega (arith, room, h.sized, h.fits), as_int)
    where
      room : capacity r ≡ 2 ^ k - length xs
      room = capacity_lem k r xs h

      as_int : capacity_i r ≡ pos (2 ^ k - length xs)
      as_int = to_int32_lem (capacity r) (omega (arith, room, h.small)) ∙ ap pos room

  push_cell :
      (k : ℕ) (r : Ring A) (x : A) (xs : List A)
      → Holds k r xs
      → length xs < 2 ^ k
      → (i : ℕ) → i < length (xs ++ x ∷ [])
      → get_elem? (set r.buffer (idx r r.head) x) ((r.tail + i) % 2 ^ k)
        ≡ get_elem? (xs ++ x ∷ []) i
  push_cell k r x xs h room i p = elim (dec_lt i (length xs)) [
    | yes before ↦
        rw (idx_lem k r h r.head, h.span)
          (get_elem?-set_ne r.buffer _ _ x
              (λ e. mod-add-ne r.tail i (length xs) (2 ^ k) before room (sym e))
            ∙ h.cells i before
            ∙ sym (get_elem?-append_left xs (x ∷ []) i before))
    | no after ↦
        let e : i ≡ length xs = omega (arith, length-append xs (x ∷ [])) in
        rw (idx_lem k r h r.head, h.span, e)
          (get_elem?-set_self r.buffer _ x
              (omega (arith, h.sized, mod-lt (r.tail + length xs) {m = 2 ^ k} (omega arith)))
            ∙ sym (get_elem?-append_last xs x))
  ]

  -- A value pushed into a ring with room goes behind the others.
  pub push_front_room :
      (k : ℕ) (r : Ring A) (x : A) (xs : List A)
      → Holds k r xs
      → length xs < 2 ^ k
      → r.head + 1 < 2 ^ 63
      → (r' : Ring A) × (push_front r x ≡ some r') × Holds k r' (xs ++ x ∷ [])
  unfolding push_front ring_size
  push_front_room k r x xs h room p = (
    record r { buffer = set r.buffer (idx r r.head) x; head = r.head + 1 },
    rw (available_lem k r h, h.sized, lt→ltb _ _ room, lt→ltb _ _ p),
    record {
      small = h.small;
      sized = length-set r.buffer _ x ∙ h.sized;
      fits = omega (arith, length-append xs (x ∷ []));
      span = omega (arith, h.span, length-append xs (x ∷ []));
      in_range = p;
      cells = push_cell k r x xs h room;
    },
  )

  -- A full ring fails the assertion of `push_front`.
  pub push_front_full :
      (k : ℕ) (r : Ring A) (x : A) (xs : List A)
      → Holds k r xs
      → length xs ≡ 2 ^ k
      → push_front r x ≡ none
  unfolding push_front ring_size
  push_front_full k r x xs h full = ground (arith, available_lem k r h, h.sized)

  -- `pop_back` takes the oldest value.
  pub pop_back_value :
      (k : ℕ) (r : Ring A) (x : A) (xs : List A)
      → Holds k r (x ∷ xs)
      → (r' : Ring A) × (pop_back r ≡ some (x, r')) × Holds k r' xs
  unfolding pop_back
  pop_back_value k r x xs h = (
    record r { tail = r.tail + 1 },
    ground (arith, h.span, h.in_range, oldest),
    record {
      small = h.small;
      sized = h.sized;
      fits = omega (arith, h.fits);
      span = omega (arith, h.span);
      in_range = h.in_range;
      cells = λ i p.
          ap (λ j. get_elem? r.buffer (j % 2 ^ k)) (omega arith) ∙ h.cells (suc i) (omega arith);
    },
  )
    where
      oldest : get_elem? r.buffer (idx r r.tail) ≡ some x
      oldest =
          ap (get_elem? r.buffer) (idx_lem k r h r.tail ∙ ap (λ j. j % 2 ^ k) (omega arith))
          ∙ h.cells 0 (omega arith)

  pub pop_back_empty : (k : ℕ) (r : Ring A) → Holds k r [] → pop_back r ≡ none
  unfolding pop_back
  pop_back_empty k r h = ground (arith, h.span)

module _ {ℓ} {A : Type ℓ} (r : Ring A) (x : A) {r' : Ring A} where
  pub head-push_front : push_front r x ≡ some r' → r'.head ≡ r.head + 1
  unfolding push_front
  head-push_front e = ground arith

  pub head-pop_back : pop_back r ≡ some (x, r') → r'.head ≡ r.head
  unfolding pop_back
  head-pop_back e = ground arith
