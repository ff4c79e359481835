-- ===== src/IpAddress/Tests.antt =====
-- Addresses, and the theorems of ip_address.cpp at them.
use dumbo.Base.{
  ℕ, ◌+◌, ◌*◌, ◌/◌, ◌%◌, ◌≡◌, refl, List, [], ◌∷◌, ◌++◌, none, some, arith, true, false, replicate,
}
use dumbo.Base.Results.{ok, err, thrown}
use dumbo.IpAddress.{
  in_addr, bad_get, Ntop, from_octets, from_array, from_string, to_string, print_address,
}
use dumbo.IpAddress.Octets.{no_v6}
use dumbo.IpAddress.Text.{ReadsBack, to_string_lem}

-- A text of one character for each byte of the address.
abbrev bytes : ℕ → List ℕ
bytes a = a % 256 ∷ a / 256 % 256 ∷ a / 65536 % 256 ∷ a / 16777216 ∷ []

abbrev ntop : Ntop
ntop = record { inet_ntop = λ a size. some (bytes a); inet_ntop6 = λ a size. none; errno = 97 }

abbrev pton : List ℕ → ℕ → ℕ
pton (w ∷ x ∷ y ∷ z ∷ []) old = w + x * 256 + y * 65536 + z * 16777216
pton s old = old

pton-bytes : (a old : ℕ) → pton (bytes a) old ≡ a
pton-bytes a old = omega arith

reads_back : ReadsBack pton ntop
reads_back a l = (bytes a, refl, λ old. pton-bytes a old)

-- 127.0.0.1 behind a space
to_string_lem_example :
    (from_octets 127 0 0 1 ≡ ok (in_addr 16777343))
    × (from_array (127 ∷ 0 ∷ 0 ∷ 1 ∷ []) true ≡ ok (in_addr 16777343))
    × (s : List ℕ) × (print_address ntop (32 ∷ []) (in_addr 16777343) ≡ ok ((32 ∷ []) ++ s))
    × (to_string ntop (in_addr 16777343) ≡ ok s)
    × (from_string pton (λ s a. []) s true ≡ ok (in_addr 16777343))
to_string_lem_example =
    to_string_lem ntop pton (λ s a. []) 127 0 0 1 (32 ∷ []) reads_back (omega arith) (omega arith)
      (omega arith) (omega arith)

no_v6_example :
    (from_string (λ s a. 0) (λ s a. []) (58 ∷ 58 ∷ []) false ≡ err (thrown bad_get))
    × (from_array (replicate 16 1) false ≡ err (thrown bad_get))
no_v6_example = no_v6 (λ s a. 0) (λ s a. []) (58 ∷ 58 ∷ []) (replicate 16 1) (omega arith)
