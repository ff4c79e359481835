-- ===== src/Ring.antt =====
-- include/dumbo/v1/reactor/ring_buffer.hpp: the queue between the IO poller and the event loop.
-- `none` is a failed BOOST_ASSERT, an access out of range or an overflow of `int64_t`.
pub mod Refine
pub mod Trace
pub mod Quotient
mod Tests
use dumbo.Base.{
  ℕ, List, Option, some, ltb, bit_and, length, get_elem?, set, replicate, ℤ, sub64, to_int32, inc64,
}
use dumbo.Base.Faults.{◌>>=◌, ◌>>◌, assert}

pub record Ring {ℓ} (A : Type ℓ) : Type ℓ where
  pub buffer : List A
  pub tail : ℕ
  pub head : ℕ

module _ {ℓ} {A : Type ℓ} where
  -- `std::vector<T> buffer_{size}` holds `size` copies of the null value.
  pub new : A → ℕ → Ring A
  new null size = record { buffer = replicate size null; tail = 0; head = 0 }

  pub ring_size : Ring A → ℕ
  ring_size r = length r.buffer

  pub available : Ring A → ℕ
  available r = sub64 r.head r.tail

  pub capacity : Ring A → ℕ
  unfolding ring_size available
  capacity r = sub64 (ring_size r) (available r)

  pub capacity_i : Ring A → ℤ
  unfolding capacity
  capacity_i r = to_int32 (capacity r)

  pub idx : Ring A → ℕ → ℕ
  idx r i = bit_and i (sub64 (length r.buffer) 1)

  pub pop_back : Ring A → Option (A × Ring A)
  unfolding idx
  pop_back r = do
    assert (ltb r.tail r.head)
    tail' ← inc64 r.tail
    value ← get_elem? r.buffer (idx r r.tail)
    some (value, record r { tail = tail' })

  pub push_front : Ring A → A → Option (Ring A)
  unfolding available ring_size idx
  push_front r value = do
    assert (ltb (available r) (ring_size r))
    head' ← inc64 r.head
    some (record r { buffer = set r.buffer (idx r r.head) value; head = head' })
