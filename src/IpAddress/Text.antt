-- ===== src/IpAddress/Text.antt =====
-- The text of an address: to_string and operator<< of ip_address.cpp, and its constructor from text.
use dumbo.Base.{ℕ, ◌^◌, ◌<◌, ◌≡◌, List, [], ◌∷◌, ◌++◌, some, true, arith}
use dumbo.Base.Results.{ok}
use dumbo.IpAddress.{
  in_addr, Ntop, inet6_addrstrlen, from_octets, from_array, from_string, to_string, print_address,
  text_or_throw, get_in_addr, is_v4, zeroed,
}
use dumbo.IpAddress.Octets.{network, octets_agree}

-- inet_ntop has a text for each IPv4 address, from which inet_pton makes that address.
abbrev pub ReadsBack : (List ℕ → ℕ → ℕ) → Ntop → Type 0
ReadsBack inet_pton n =
    (a : ℕ)
    → a < 2 ^ 32
    → (s : List ℕ) × (n.inet_ntop a inet6_addrstrlen ≡ some s) × ((old : ℕ) → inet_pton s old ≡ a)

module _ (n : Ntop) (inet_pton : List ℕ → ℕ → ℕ) (inet_pton6 : List ℕ → List ℕ → List ℕ) where
  printed_text :
      (a : ℕ) (out : List ℕ)
      → ReadsBack inet_pton n
      → a < 2 ^ 32
      → (s : List ℕ) × (print_address n out (in_addr a) ≡ ok (out ++ s))
        × (to_string n (in_addr a) ≡ ok s)
        × (from_string inet_pton inet_pton6 s true ≡ ok (in_addr a))
  unfolding print_address to_string from_string text_or_throw get_in_addr is_v4 zeroed
  printed_text a out h l = let (s, e, back) = h a l in (s, rw e, rw e, rw (back 0))

  -- If inet_pton reads what inet_ntop writes, four octets and an array of them make the address
  -- whose bytes they are, in the order of the network; it is printed behind what the stream holds
  -- as its text, and this text makes the same address again.
  pub to_string_lem :
      (a b c d : ℕ) (out : List ℕ)
      → ReadsBack inet_pton n
      → a < 256
      → b < 256
      → c < 256
      → d < 256
      → (from_octets a b c d ≡ ok (in_addr (network a b c d)))
        × (from_array (a ∷ b ∷ c ∷ d ∷ []) true ≡ ok (in_addr (network a b c d)))
        × (s : List ℕ) × (print_address n out (in_addr (network a b c d)) ≡ ok (out ++ s))
        × (to_string n (in_addr (network a b c d)) ≡ ok s)
        × (from_string inet_pton inet_pton6 s true ≡ ok (in_addr (network a b c d)))
  to_string_lem a b c d out h ha hb hc hd =
      let (octets, array) = octets_agree a b c d ha hb hc hd in
      let (s, printed, text, read) = printed_text (network a b c d) out h (omega arith) in
      (octets, array, s, printed, text, read)
