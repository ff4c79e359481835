-- ===== src/Mpsc.antt =====
-- include/dumbo/v1/reactor/mpsc_queue.hpp: the inbox of a reactor. The disruptor that carries it is
-- not this library's code: `Disruptor` names the calls that the queue makes, and `Fifo` what it
-- relies on. A call of the queue is one step.
pub mod Fifo
pub mod History
pub mod Listed
mod Tests
use Prim.Native.Nat.{min}
use dumbo.Base.{ℕ, zero, suc, ◌+◌, Bool, true, false, ◌==◌, if◌then◌else◌}

-- `State` joins `sequencer_` and `event_processor_`.
pub record Disruptor (A : Type 0) : Type 1 where
  pub State : Type 0
  pub claim : State → ℕ → ℕ × State
  pub write : State → ℕ → A → State
  pub publish : State → ℕ → ℕ → State
  pub has_events : State → ℕ × State
  pub get_event : State → ℕ → A
  pub get_current_event : State → A
  pub commit : State → ℕ → State

module _ {A : Type 0} (d : Disruptor A) where
  unfoldable pub send : d.State → A → Bool × d.State
  send s value =
      let (idx, s₁) = d.claim s 1 in let s₂ = d.write s₁ idx value in (true, d.publish s₂ idx 1)

  -- The value goes through the reference argument, so only with `true`.
  pub get_one : d.State → A → Bool × A × d.State
  get_one s value =
      let (size, s₁) = d.has_events s in
      if size == 0 then (false, value, s₁) else (true, d.get_current_event s₁, d.commit s₁ 1)

  -- The loop over the events from `c` on, `left` more of them; `fn` works on a state `W`.
  pub for_events : {W : Type 0} → (A → W → W) → d.State → ℕ → ℕ → W → W
  for_events fn s c zero w = w
  for_events fn s c (suc left) w = for_events fn s (c + 1) left (fn (d.get_event s c) w)

  pub get : {W : Type 0} → ℕ → (A → W → W) → d.State → W → ℕ × d.State × W
  unfolding for_events
  get requested_size fn s w =
      let (available_size, s₁) = d.has_events s in
      let min_size = min available_size requested_size in
      if available_size == 0
      then (0, s₁, w)
      else (min_size, d.commit s₁ min_size, for_events fn s₁ 0 min_size w)

  pub get_all : {W : Type 0} → (A → W → W) → d.State → W → ℕ × d.State × W
  unfolding for_events
  get_all fn s w =
      let (available_size, s₁) = d.has_events s in
      if available_size == 0
      then (0, s₁, w)
      else (available_size, d.commit s₁ available_size, for_events fn s₁ 0 available_size w)
