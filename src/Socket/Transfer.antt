-- ===== src/Socket/Transfer.antt =====
-- `read` and `write` of a connection of socket_impl.cpp.
use dumbo.Base.{
  ℕ, suc, ◌≡◌, ◌≢◌, refl, sym, ap, ◌∙◌, true, false, Bool-cases, inl, inr, ==_refl, ne→==, ℤ, pos,
  negsuc, ℕ_discrete, ◌⊎◌,
}
use dumbo.Base.Results.{Result, ok, err, thrown, blocked}
use dumbo.Socket.{
  Call, read_from, write_to, wait_for, Net, Os, sys, raise, set_spent, suspended, Connection,
  transferred, transfer, read, write,
}

pub data Direction : Type 0 where
  reads writes : Direction

-- The system call of a direction.
abbrev pub call_of : Direction → ℤ → ℕ → Call
call_of reads fd size = read_from fd size
call_of writes fd size = write_to fd size

module _ (net : Net) where
  abbrev pub perform : Direction → ℕ → Connection → ℕ → ℕ → ℕ → Os net → Os net × Result ℕ
  perform reads = read net
  perform writes = write net

  -- What becomes of any other answer.
  pub data Ended : ℤ × Os net → Os net × Result ℕ → Type 0 where
    bytes : (n : ℕ) (o : Os net) → n ≢ 11 → Ended (pos n, o) (o, ok n)
    failed : (n : ℕ) (o : Os net) → Ended (negsuc n, o) (o, err (thrown (net.errno o.kernel)))

  transferred-Ended :
      (again : Os net → Os net × Result ℕ) (message : ℕ) (a : ℤ × Os net) (r : Os net × Result ℕ)
      → Ended a r
      → transferred net again message a ≡ r
  unfolding transferred raise
  transferred-Ended again message a r (bytes n o h) = rw (ne→== n 11 h)
  transferred-Ended again message a r (failed n o) = refl

  -- An answer is 11 bytes, or any other.
  answer_cases :
      (a : ℤ × Os net) → ((o : Os net) × (a ≡ (pos 11, o))) ⊎ ((r : Os net × Result ℕ) × Ended a r)
  answer_cases (pos n, o) = elim (ℕ_discrete n 11) [
    | yes e ↦ inl (o, ap (λ (k : ℕ). (pos k, o)) e)
    | no h ↦ inr ((o, ok n), bytes n o h)
  ]
  answer_cases (negsuc n, o) = inr ((o, err (thrown (net.errno o.kernel))), failed n o)

  module _ (c : Call) (message : ℕ) where
    -- A fiber that was resumed by the event of its message.
    abbrev pub woken : Os net → Os net
    woken o = set_spent net true message (sys net o (wait_for message)).1

    -- What a transfer comes to.
    pub data Transfers (o : Os net) : Os net × Result ℕ → Type 0 where
      at_once : (r : Os net × Result ℕ) → Ended (sys net o c) r → Transfers o r
      spent_before :
          (o₁ : Os net)
          → sys net o c ≡ (pos 11, o₁)
          → o.spent message ≡ true
          → Transfers o ((sys net o₁ (wait_for message)).1, err blocked)
      after_wait :
          (o₁ : Os net) (r : Os net × Result ℕ)
          → sys net o c ≡ (pos 11, o₁)
          → o.spent message ≡ false
          → Ended (sys net (woken o₁) c) r
          → Transfers o r
      twice :
          (o₁ o₂ : Os net)
          → sys net o c ≡ (pos 11, o₁)
          → o.spent message ≡ false
          → sys net (woken o₁) c ≡ (pos 11, o₂)
          → Transfers o ((sys net o₂ (wait_for message)).1, err blocked)

    eleven-spent :
        (again : Os net → Os net × Result ℕ) (o : Os net)
        → o.spent message ≡ true
        → transferred net again message (pos 11, o)
          ≡ ((sys net o (wait_for message)).1, err blocked)
    unfolding transferred suspended
    eleven-spent again o h = rw h

    eleven-fresh :
        (again : Os net → Os net × Result ℕ) (o : Os net)
        → o.spent message ≡ false
        → transferred net again message (pos 11, o) ≡ again (woken o)
    unfolding transferred suspended
    eleven-fresh again o h = rw h

    same_spent :
        (o o₁ : Os net) (n : ℕ) → sys net o c ≡ (pos n, o₁) → o₁.spent message ≡ o.spent message
    unfolding sys
    same_spent o o₁ n e = sym (ap (λ a. a.1.spent message) e)

    pub transfer-Transfers :
        (more : ℕ) (o : Os net)
        → (r : Os net × Result ℕ) × Transfers o r × (transfer net (suc (suc more)) c message o ≡ r)
    unfolding transfer
    transfer-Transfers more o =
        let again = transfer net (suc more) c message in
        elim (answer_cases (sys net o c)) [
          | inr (r, e) ↦ (r, at_once r e, transferred-Ended again message (sys net o c) r e)
          | inl (o₁, e) ↦
              let first = ap (transferred net again message) e in
              let kept = same_spent o o₁ 11 e in
              elim (Bool-cases (o.spent message)) [
                | inl h ↦ (
                  ((sys net o₁ (wait_for message)).1, err blocked),
                  spent_before o₁ e h,
                  first ∙ eleven-spent again o₁ (kept ∙ h),
                )
                | inr h ↦
                    let resumed = first ∙ eleven-fresh again o₁ (kept ∙ h) in
                    let later = transfer net more c message in
                    elim (answer_cases (sys net (woken o₁) c)) [
                      | inr (r, e') ↦ (
                        r,
                        after_wait o₁ r e h e',
                        resumed ∙ transferred-Ended later message (sys net (woken o₁) c) r e',
                      )
                      | inl (o₂, e') ↦ (
                        ((sys net o₂ (wait_for message)).1, err blocked),
                        twice o₁ o₂ e h e',
                        resumed
                            ∙ ap (transferred net later message) e'
                            ∙ eleven-spent later o₂
                                (same_spent (woken o₁) o₂ 11 e' ∙ (rw (==_refl message) refl)),
                      )
                    ]
              ]
        ]

  -- Whatever the calls answer, `read` and `write` from the fiber of the connection make at most two
  -- of them. They return the number of bytes of a call, or throw its error if it is negative, also
  -- if errno is EAGAIN; but if a call transferred 11 bytes, the number of EAGAIN, they wait, and
  -- then call again, and what they return is of the second call alone. The event of the message
  -- ends one wait: after an earlier one, and after the second call with 11 bytes, they never return.
  pub transfer_lem :
      (direction : Direction) (conn : Connection) (fiber size more : ℕ) (o : Os net)
      → (r : Os net × Result ℕ) × Transfers
          (call_of direction conn.connection_fd size)
          conn.message
          o
          r
        × (perform direction (suc (suc more)) conn fiber fiber size o ≡ r)
  unfolding read write
  transfer_lem reads conn fiber size more o =
      let (r, t, e) = transfer-Transfers (read_from conn.connection_fd size) conn.message more o in
      (r, t, rw (==_refl fiber) e)
  transfer_lem writes conn fiber size more o =
      let (r, t, e) = transfer-Transfers (write_to conn.connection_fd size) conn.message more o in
      (r, t, rw (==_refl fiber) e)
