-- ===== src/IpAddress/Octets.antt =====
-- The addresses that the constructors of ip_address.cpp make.
use Prim.Native.Nat.{bit_or}
use dumbo.Base.{
  ℕ, zero, suc, ◌+◌, ◌*◌, ◌^◌, ◌≤◌, ◌<◌, ◌≡◌, refl, ap, ◌∙◌, List, [], ◌∷◌, true, false, arith,
  length, get_elem?_lt,
}
use dumbo.Base.Shifts.{bit_or-high_low, bit_or-low_high}
use dumbo.Base.Results.{ok, err, thrown}
use dumbo.IpAddress.{
  in_addr, bad_get, shifted, htonl, from_octets, or_octets, copy_octets, from_array, from_string,
  get_in_addr, get_in6_addr, zeroed,
}

-- The address whose bytes are these octets, in the order of the network.
abbrev pub network : ℕ → ℕ → ℕ → ℕ → ℕ
network a b c d = a + b * 2 ^ 8 + c * 2 ^ 16 + d * 2 ^ 24

module _ (a b c d : ℕ) (ha : a < 256) (hb : b < 256) (hc : c < 256) (hd : d < 256) where
  high_first :
      bit_or (bit_or (bit_or (shifted a 24) (shifted b 16)) (shifted c 8)) (shifted d 0)
      ≡ d + c * 2 ^ 8 + b * 2 ^ 16 + a * 2 ^ 24
  unfolding shifted
  high_first =
      let e₁ = bit_or-high_low 24 (shifted a 24) (shifted b 16) (omega arith) (omega arith) in
      let e₂ =
        bit_or-high_low 16 (shifted a 24 + shifted b 16) (shifted c 8) (omega arith)
          (omega arith) in
      let e₃ =
        bit_or-high_low 8 (shifted a 24 + shifted b 16 + shifted c 8) (shifted d 0) (omega arith)
          (omega arith) in
      rw (e₁, e₂, e₃) (omega arith)

  low_first :
      bit_or (bit_or (bit_or (bit_or 0 (shifted a 0)) (shifted b 8)) (shifted c 16)) (shifted d 24)
      ≡ network a b c d
  unfolding shifted
  low_first =
      let e₀ = bit_or-low_high 0 0 (shifted a 0) (omega arith) (omega arith) in
      let e₁ = bit_or-low_high 8 (0 + shifted a 0) (shifted b 8) (omega arith) (omega arith) in
      let e₂ =
        bit_or-low_high 16 (0 + shifted a 0 + shifted b 8) (shifted c 16) (omega arith)
          (omega arith) in
      let e₃ =
        bit_or-low_high 24 (0 + shifted a 0 + shifted b 8 + shifted c 16) (shifted d 24)
          (omega arith) (omega arith) in
      rw (e₀, e₁, e₂, e₃) (omega arith)

  -- Four octets and an array of the same octets make the same address, whose bytes are the octets
  -- in the order of the network.
  pub octets_agree :
      (from_octets a b c d ≡ ok (in_addr (network a b c d)))
      × (from_array (a ∷ b ∷ c ∷ d ∷ []) true ≡ ok (in_addr (network a b c d)))
  unfolding from_octets from_array or_octets get_in_addr zeroed htonl
  octets_agree = (
    ap (λ (v : ℕ). ok (in_addr (htonl v))) high_first
        ∙ ap (λ (v : ℕ). ok (in_addr v)) {y = network a b c d} (omega arith),
    ap (λ (v : ℕ). ok (in_addr v)) low_first,
  )

copy_octets_ok :
    (octets : List ℕ) (left c : ℕ)
    → c + left ≤ length octets
    → (os : List ℕ) × (copy_octets octets left c ≡ ok os)
unfolding copy_octets
copy_octets_ok octets zero c h = ([], refl)
copy_octets_ok octets (suc left) c h =
    let (o, e) = get_elem?_lt octets c (omega arith) in
    let (os, e') = copy_octets_ok octets left (c + 1) (omega arith) in (o ∷ os, rw (e, e'))

-- An IPv6 address is never made: both of its constructors throw boost::bad_get, whatever inet_pton
-- does and whatever the 16 octets are.
pub no_v6 :
    (inet_pton : List ℕ → ℕ → ℕ) (inet_pton6 : List ℕ → List ℕ → List ℕ) (addr octets : List ℕ)
    → 16 ≤ length octets
    → (from_string inet_pton inet_pton6 addr false ≡ err (thrown bad_get))
      × (from_array octets false ≡ err (thrown bad_get))
unfolding from_string from_array get_in6_addr zeroed
no_v6 inet_pton inet_pton6 addr octets h =
    let (os, e) = copy_octets_ok octets 16 0 (omega arith) in (refl, rw e)
