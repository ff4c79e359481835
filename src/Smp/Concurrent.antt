-- ===== src/Smp/Concurrent.antt =====
-- Submissions of two reactors at once, in any interleaving, to the inboxes of smp_base.hpp.
use dumbo.Base.{ℕ, ◌≡◌, ap, ◌∙◌, sym, List, ◌++◌, some, ◌==◌, inl, inr, Bool-cases}
use dumbo.Base.Bags.{Bag, bag, bag-append, Interleaves, nothing, left, right, SameCount-Interleaves}
use dumbo.Mpsc.{Disruptor}
use dumbo.Mpsc.Fifo.{Fifo}
use dumbo.Smp.{Smp}
use dumbo.Smp.Routing.{IsValid, queued, addressed, submit_each, Below, submit_each_lem}

module _ (d : Disruptor ℕ) (f : Fifo d) where
  Below-Interleaves :
      (n : ℕ) (us vs ws : List (ℕ × ℕ))
      → Interleaves us vs ws
      → Below d f n us
      → Below d f n vs
      → Below d f n ws
  Below-Interleaves n us vs ws nothing b c = tt
  Below-Interleaves n us vs ws (left (cpu, m) i) b c = (b.0, Below-Interleaves n _ _ _ i b.1 c)
  Below-Interleaves n us vs ws (right (cpu, m) i) b c = (c.0, Below-Interleaves n _ _ _ i b c.1)

  -- What is addressed to one cpu is interleaved as the submissions are.
  addressed-Interleaves :
      (e : ℕ) (us vs ws : List (ℕ × ℕ))
      → Interleaves us vs ws
      → Interleaves (addressed d f e us) (addressed d f e vs) (addressed d f e ws)
  addressed-Interleaves e us vs ws nothing = nothing
  addressed-Interleaves e us vs ws (left (cpu, m) i) = elim (Bool-cases (cpu == e)) [
    | inl q ↦ rw q (left m (addressed-Interleaves e _ _ _ i))
    | inr q ↦ rw q (addressed-Interleaves e _ _ _ i)
  ]
  addressed-Interleaves e us vs ws (right (cpu, m) i) = elim (Bool-cases (cpu == e)) [
    | inl q ↦ rw q (right m (addressed-Interleaves e _ _ _ i))
    | inr q ↦ rw q (addressed-Interleaves e _ _ _ i)
  ]

  -- Two reactors submit the messages `us` and `vs` to valid cpus. In any interleaving `ws` no
  -- submission fails, and each inbox gets what they sent to its cpu, interleaved, with the messages
  -- of each reactor in the order in which it sent them. Any other interleaving `zs` leaves the same
  -- messages in each inbox, as often, if their order is forgotten.
  pub concurrent_lem :
      (us vs ws zs : List (ℕ × ℕ)) (s : Smp d) (n : ℕ)
      → IsValid d s n
      → Below d f n us
      → Below d f n vs
      → Interleaves us vs ws
      → Interleaves us vs zs
      → (s₁ : Smp d) × (s₂ : Smp d) × (submit_each d f s ws ≡ some s₁)
        × (submit_each d f s zs ≡ some s₂)
        × ((e : ℕ)
            → (part : List ℕ) × (queued d f s₁ e ≡ queued d f s e ++ part)
              × Interleaves (addressed d f e us) (addressed d f e vs) part)
        × ((e : ℕ) → ◌≡◌ {A = Bag} (bag (queued d f s₁ e)) (bag (queued d f s₂ e)))
  concurrent_lem us vs ws zs s n v b c i j =
      let (s₁, e₁, v₁, q₁) = submit_each_lem d f ws s n v (Below-Interleaves n us vs ws i b c) in
      let (s₂, e₂, v₂, q₂) = submit_each_lem d f zs s n v (Below-Interleaves n us vs zs j b c) in
      (
        s₁,
        s₂,
        e₁,
        e₂,
        λ e. (addressed d f e ws, q₁ e, addressed-Interleaves e us vs ws i),
        λ e.
            ap bag (q₁ e)
            ∙ bag-append (queued d f s e) (addressed d f e ws) (addressed d f e zs) (
                SameCount-Interleaves (addressed d f e us) (addressed d f e vs) (addressed d f e ws)
                  (addressed d f e zs) (addressed-Interleaves e us vs ws i)
                  (addressed-Interleaves e us vs zs j))
            ∙ ap bag (sym (q₂ e)),
      )
