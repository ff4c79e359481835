-- ===== src/Smp.antt =====
-- include/dumbo/v1/reactor/smp_base.hpp: one inbox for each cpu. `Smp` of linux/smp.hpp and
-- msvc/msvc_smp.hpp adds nothing. `none` is the failed assertion on the cpu's number.
pub mod Routing
pub mod Concurrent
pub mod Totals
mod Tests
use dumbo.Base.{
  ℕ, zero, suc, List, [], ◌∷◌, Option, none, some, Bool, ltb, ℤ, pos, negsuc, leb_ℤ, ltb_ℤ, ◌&&◌,
  get_elem?, set, replicate,
}
use dumbo.Base.Faults.{◌>>=◌, ◌>>◌, assert}
use dumbo.Mpsc
use dumbo.Mpsc.{Disruptor}

module _ {A : Type 0} (d : Disruptor A) where
  pub record Smp : Type 0 where
    pub cpu_num : ℤ
    pub inboxes : List d.State

  -- The constructor: `std::make_unique<WorkerMessageQueue>()` for each cpu.
  make_inboxes : d.State → ℕ → List d.State
  make_inboxes fresh zero = []
  make_inboxes fresh (suc n) = fresh ∷ make_inboxes fresh n

  pub make_smp : d.State → ℤ → Smp
  unfolding make_inboxes
  make_smp fresh (pos n) = record { cpu_num = pos n; inboxes = make_inboxes fresh n }
  make_smp fresh (negsuc n) = record { cpu_num = negsuc n; inboxes = [] }

  valid_cpu : Smp → ℤ → Bool
  valid_cpu s cpu = leb_ℤ (pos 0) cpu && ltb_ℤ cpu s.cpu_num

  -- `inboxes_[cpu]`, behind the assertion.
  index : ℤ → ℕ
  index (pos n) = n
  index (negsuc n) = 0

  pub submit_to : Smp → ℤ → A → Option (Bool × Smp)
  unfolding valid_cpu index
  submit_to s cpu msg = do
    assert (valid_cpu s cpu)
    inbox ← get_elem? s.inboxes (index cpu)
    let r = Mpsc.send d inbox msg
    some (r.0, record s { inboxes = set s.inboxes (index cpu) r.1 })

  pub receive : {W : Type 0} → Smp → ℤ → ℕ → (A → W → W) → W → Option (ℕ × Smp × W)
  unfolding valid_cpu index
  receive s cpu max_batch_size consumer w = do
    assert (valid_cpu s cpu)
    inbox ← get_elem? s.inboxes (index cpu)
    let r = Mpsc.get d max_batch_size consumer inbox w
    some (r.0, record s { inboxes = set s.inboxes (index cpu) r.1 }, r.2)

  pub receive_all : {W : Type 0} → Smp → ℤ → (A → W → W) → W → Option (ℕ × Smp × W)
  unfolding valid_cpu index
  receive_all s cpu consumer w = do
    assert (valid_cpu s cpu)
    inbox ← get_elem? s.inboxes (index cpu)
    let r = Mpsc.get_all d consumer inbox w
    some (r.0, record s { inboxes = set s.inboxes (index cpu) r.1 }, r.2)
