-- ===== src/IpAddress.antt =====
-- src/reactor/linux/ip_address.cpp, on a host with the low byte first. `thrown bad_get` is
-- boost::bad_get; `asserted` is a read past the octets. An in_addr is its 32-bit `s_addr`.
pub mod Octets
pub mod Text
mod Tests
use Prim.Native.Nat.{bit_or}
use dumbo.Base.{
  ℕ, zero, suc, ◌+◌, ◌*◌, ◌/◌, ◌%◌, ◌^◌, List, [], ◌∷◌, Option, none, some, Bool, true, false,
  if◌then◌else◌, get_elem?, ◌++◌,
}
use dumbo.Base.Results.{Result, ok, err, thrown, ◌>>=◌, checked}

abbrev pub bad_get : ℕ
bad_get = 0

-- boost::variant<in_addr, in6_addr>
pub data IpAddress : Type 0 where
  in_addr : ℕ → IpAddress
  in6_addr : List ℕ → IpAddress

-- `boost::get<in_addr>(address_)` and `boost::get<in6_addr>(address_)`
pub get_in_addr : IpAddress → Result ℕ
get_in_addr (in_addr a) = ok a
get_in_addr (in6_addr a) = err (thrown bad_get)

pub get_in6_addr : IpAddress → Result (List ℕ)
get_in6_addr (in_addr a) = err (thrown bad_get)
get_in6_addr (in6_addr a) = ok a

-- `address_{}` has the first type of the variant, zeroed.
pub zeroed : IpAddress
zeroed = in_addr 0

-- The constructor without arguments: `s_addr` is INADDR_ANY, 0.
pub any_address : Result IpAddress
unfolding get_in_addr zeroed
any_address = do a ← get_in_addr zeroed; ok (in_addr 0)

-- inet_pton as a parameter: what it leaves of the address before; its result is not looked at.
pub from_string : (List ℕ → ℕ → ℕ) → (List ℕ → List ℕ → List ℕ) → List ℕ → Bool → Result IpAddress
unfolding get_in_addr get_in6_addr zeroed
from_string inet_pton inet_pton6 addr v4 =
    if v4
    then (get_in_addr zeroed >>= λ a. ok (in_addr (inet_pton addr a)))
    else (get_in6_addr zeroed >>= λ a. ok (in6_addr (inet_pton6 addr a)))

-- `((in_addr_t) octet) << bits`
pub shifted : ℕ → ℕ → ℕ
shifted octet bits = octet * 2 ^ bits % 2 ^ 32

pub htonl : ℕ → ℕ
htonl v =
    v % 2 ^ 8 * 2 ^ 24
    + v / 2 ^ 8 % 2 ^ 8 * 2 ^ 16
    + v / 2 ^ 16 % 2 ^ 8 * 2 ^ 8
    + v / 2 ^ 24 % 2 ^ 8

pub from_octets : ℕ → ℕ → ℕ → ℕ → Result IpAddress
unfolding shifted htonl get_in_addr zeroed
from_octets oct3 oct2 oct1 oct0 =
    let value =
      bit_or (bit_or (bit_or (shifted oct3 24) (shifted oct2 16)) (shifted oct1 8))
        (shifted oct0 0) in
    get_in_addr zeroed >>= λ a. ok (in_addr (htonl value))

-- The loop over `left` octets from `c` on.
pub or_octets : List ℕ → ℕ → ℕ → ℕ → Result ℕ
unfolding shifted
or_octets octets zero c s_addr = ok s_addr
or_octets octets (suc left) c s_addr = checked (get_elem? octets c) >>= λ o.
    or_octets octets left (c + 1) (bit_or s_addr (shifted o (c * 8)))

pub copy_octets : List ℕ → ℕ → ℕ → Result (List ℕ)
copy_octets octets zero c = ok []
copy_octets octets (suc left) c = do
  o ← checked (get_elem? octets c)
  os ← copy_octets octets left (c + 1)
  ok (o ∷ os)

pub from_array : List ℕ → Bool → Result IpAddress
unfolding or_octets copy_octets get_in_addr get_in6_addr zeroed
from_array octets v4 =
    if v4
    then (or_octets octets 4 0 0 >>= λ addr. get_in_addr zeroed >>= λ a. ok (in_addr addr))
    else (copy_octets octets 16 0 >>= λ addr. get_in6_addr zeroed >>= λ a. ok (in6_addr addr))

unfoldable pub is_v4 : IpAddress → Bool
is_v4 (in_addr a) = true
is_v4 (in6_addr a) = false

-- inet_ntop of the two families, with the address and the size of the buffer, and errno after a
-- call that answers null.
pub record Ntop : Type 0 where
  inet_ntop : ℕ → ℕ → Option (List ℕ)
  inet_ntop6 : List ℕ → ℕ → Option (List ℕ)
  errno : ℕ

-- INET6_ADDRSTRLEN, `sizeof(str)`
abbrev pub inet6_addrstrlen : ℕ
inet6_addrstrlen = 46

-- The answer of inet_ntop: the text, or null, for which rise_perror throws.
pub text_or_throw : ℕ → Option (List ℕ) → Result (List ℕ)
text_or_throw errno none = err (thrown errno)
text_or_throw errno (some str) = ok str

pub to_string : Ntop → IpAddress → Result (List ℕ)
unfolding get_in_addr get_in6_addr text_or_throw is_v4
to_string n addr =
    if is_v4 addr
    then (get_in_addr addr >>= λ a. text_or_throw n.errno (n.inet_ntop a inet6_addrstrlen))
    else (get_in6_addr addr >>= λ a. text_or_throw n.errno (n.inet_ntop6 a inet6_addrstrlen))

-- `out << addr`, with what `out` holds
pub print_address : Ntop → List ℕ → IpAddress → Result (List ℕ)
unfolding to_string
print_address n out addr = to_string n addr >>= λ str. ok (out ++ str)
