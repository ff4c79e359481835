-- ===== src/Tools/Perror.antt =====
-- include/dumbo/v1/tools/perror.hpp: the text of the exceptions that its functions throw, or the text
-- that they print. `strerror` and how a number is printed are parameters; a text is its bytes.
use dumbo.Base.{ℕ, ◌≡◌, refl, List, [], ◌∷◌, ◌++◌}
use dumbo.Tools.StringBuffer.{SBuf, perror_text}

-- "Exception: " and " -- errno: "
abbrev pub exception_prefix : List ℕ
exception_prefix = 69 ∷ 120 ∷ 99 ∷ 101 ∷ 112 ∷ 116 ∷ 105 ∷ 111 ∷ 110 ∷ 58 ∷ 32 ∷ []

abbrev pub errno_prefix : List ℕ
errno_prefix = 32 ∷ 45 ∷ 45 ∷ 32 ∷ 101 ∷ 114 ∷ 114 ∷ 110 ∷ 111 ∷ 58 ∷ 32 ∷ []

abbrev pub newline : ℕ
newline = 10

module _ (strerror print_number : ℕ → List ℕ) where
  -- `rise_perror` with a text, with a buffer, and with a buffer and an error code.
  pub rise_perror_string : ℕ → List ℕ → List ℕ
  rise_perror_string errno message = perror_text message (strerror errno)

  pub rise_perror : ℕ → SBuf → List ℕ
  rise_perror errno message = perror_text message.str (strerror errno)

  pub rise_perror_code : ℕ → SBuf → List ℕ
  rise_perror_code errno₀ message = perror_text message.str (strerror errno₀)

  -- `report_perror` with errno, and with an error code.
  pub report_perror : ℕ → SBuf → List ℕ
  report_perror errno message =
      exception_prefix
      ++ (perror_text message.str (strerror errno) ++ (errno_prefix ++ print_number errno))
      ++ newline ∷ []

  pub report_perror_code : ℕ → SBuf → List ℕ
  report_perror_code errno₀ message =
      exception_prefix
      ++ (perror_text message.str (strerror errno₀) ++ (errno_prefix ++ print_number errno₀))
      ++ newline ∷ []

  pub rise_error : SBuf → List ℕ
  rise_error message = message.str

  -- For the same message and errno all ways to raise an error have one text, which is also what stands
  -- between the prefix and the number when it is reported.
  pub same_text :
      (errno : ℕ) (message : SBuf)
      → (rise_perror errno message ≡ rise_perror_string errno message.str)
        × (rise_perror_code errno message ≡ rise_perror_string errno message.str)
        × (report_perror errno message
            ≡ exception_prefix
              ++ (rise_perror errno message ++ (errno_prefix ++ print_number errno))
              ++ newline ∷ [])
        × (report_perror_code errno message ≡ report_perror errno message)
  unfolding rise_perror rise_perror_string rise_perror_code report_perror report_perror_code
  same_text errno message = (refl, refl, refl, refl)
