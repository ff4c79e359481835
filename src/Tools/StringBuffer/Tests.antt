-- ===== src/Tools/StringBuffer/Tests.antt =====
-- What is printed of two vectors.
use dumbo.Base.{ℕ, ◌+◌, ◌≡◌, refl, List, [], ◌∷◌, some}
use dumbo.Tools.StringBuffer.{SBuf, print_vector, print_from, print_value, separator, append}

-- A digit.
abbrev print_digit : ℕ → List ℕ
print_digit n = (48 + n) ∷ []

abbrev greeting : SBuf
greeting = record { str = 104 ∷ 105 ∷ [] }

printed :
    print_vector print_digit greeting (1 ∷ 2 ∷ [])
    ≡ some (record { str = 104 ∷ 105 ∷ 91 ∷ 49 ∷ 44 ∷ 32 ∷ 50 ∷ 93 ∷ [] })
unfolding print_vector print_from print_value separator append
printed = refl
