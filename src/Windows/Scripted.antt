-- ===== src/Windows/Scripted.antt =====
-- A system whose answers are a script, for runs of the Windows port.
use dumbo.Base.{ℕ, List, [], ◌∷◌, true, ℤ, pos}
use dumbo.Windows.{Call, set_count, wait_for, Win, Os}

-- Answers with the errors that GetLastError tells after them.
abbrev pub Script : Type 0
Script = List (ℤ × ℕ)

abbrev pub answer : Script → ℤ × Script
answer [] = (pos 1, [])
answer (a ∷ script) = (a.0, a ∷ script)

abbrev pub step : Script → Script
step [] = []
step (a ∷ script) = script

-- The first entry of the state is the answer given last.
abbrev pub scripted : Script → Call → ℤ × Script
scripted script c = elim c [
  | wait_for m ↦ (pos 1, script)
  | set_count m n ↦ (pos 1, script)
  | _ ↦ answer (step script)
]

abbrev pub error_of_last : Script → ℕ
error_of_last [] = 0
error_of_last (a ∷ script) = a.1

abbrev pub win : Win
win = record {
  State = Script;
  call = scripted;
  last_error = error_of_last;
  errno = error_of_last;
  completion = λ s a. record { status = true; size = 512; error_code = 0 };
}

abbrev pub at_start : Script → Os win
at_start script = record { kernel = (pos 1, 0) ∷ script; calls = [] }
