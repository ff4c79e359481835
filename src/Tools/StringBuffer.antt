-- ===== src/Tools/StringBuffer.antt =====
-- include/dumbo/v1/tools/string_buffer.hpp, and the messages that perror.hpp makes with it. A string
-- is its bytes; how a value is printed is a parameter.
pub mod Joined
mod Tests
use dumbo.Base.{
  ℕ, zero, suc, ◌+◌, ◌-◌, List, [], ◌∷◌, ◌++◌, Option, none, some, not, ◌==◌, if◌then◌else◌, length,
  get_elem?,
}
use dumbo.Base.Faults.{◌>>=◌}

abbrev pub open_bracket : ℕ
open_bracket = 91

abbrev pub close_bracket : ℕ
close_bracket = 93

abbrev pub comma : ℕ
comma = 44

abbrev pub space : ℕ
space = 32

abbrev pub colon : ℕ
colon = 58

-- SBuf: what was printed.
pub record SBuf : Type 0 where
  pub str : List ℕ

pub empty_buffer : SBuf
empty_buffer = record { str = [] }

pub append : SBuf → List ℕ → SBuf
append b s = record { str = b.str ++ s }

module _ {A : Type 0} (print : A → List ℕ) where
  -- `operator<<(const T&)`
  pub print_value : SBuf → A → SBuf
  unfolding append
  print_value b value = append b (print value)

  separator : SBuf → ℕ → ℕ → SBuf
  unfolding append
  separator b c size = if not (c == size - 1) then append b (comma ∷ space ∷ []) else b

  -- The loop over the values from `c` on, of which `left` remain; an access out of range faults.
  pub print_from : List A → ℕ → ℕ → SBuf → Option SBuf
  unfolding print_value separator
  print_from values zero c b = some b
  print_from values (suc left) c b = get_elem? values c >>= λ value.
      print_from values left (c + 1) (separator (print_value b value) c (length values))

  -- `operator<<(const std::vector<T>&)`, for fewer than 2 ^ 31 values, so that `c` does not overflow.
  pub print_vector : SBuf → List A → Option SBuf
  unfolding append print_from
  print_vector b values = do
    b' ← print_from values (length values) 0 (append b (open_bracket ∷ []))
    some (append b' (close_bracket ∷ []))

-- The text of the exception of `rise_perror` for the errno whose text is `error_text`.
pub perror_text : List ℕ → List ℕ → List ℕ
unfolding append empty_buffer
perror_text message error_text =
    (append (append (append empty_buffer message) (colon ∷ space ∷ [])) error_text).str
