-- ===== src/Link/Net.antt =====
-- What cluster link uses of Go's package `net` and of `crypto/rand`. Parsing and printing are a
-- parameter; `To4`, `IPMask.Size` and `IPNet.Contains` are written out. A byte is a number.
use Prim.Native.Nat.{bit_and}
use kosmos.Base.{
  ℕ, ◌+◌, String, Bool, true, ◌&&◌, Option, none, some, List, [], ◌∷◌, length, nat_beq, any, not,
  if◌then◌else◌,
}

pub record IpNet : Type 0 where
  pub ip : List ℕ
  pub mask : List ℕ

pub record Net : Type 0 where
  pub parse_ip : String → Option (List ℕ)
  pub parse_cidr : String → Option (List ℕ × IpNet)
  pub ip_string : List ℕ → String
  pub ip_net_string : IpNet → String
  pub mac_string : List ℕ → String
  -- the n-th read of six bytes from `crypto/rand`, `none` where it fails
  pub random : ℕ → Option (List ℕ)

unfoldable pub is_zeros : List ℕ → Bool
is_zeros xs = not (any (λ b. not (nat_beq b 0)) xs)

-- The four bytes of a 16-byte form of an IPv4 address.
unfoldable pub mapped_ipv4 : List ℕ → Option (List ℕ)
unfolding is_zeros
mapped_ipv4 (a ∷ b ∷ c ∷ d ∷ e ∷ f ∷ g ∷ h ∷ i ∷ j ∷ k ∷ l ∷ w ∷ x ∷ y ∷ z ∷ []) =
    if is_zeros (a ∷ b ∷ c ∷ d ∷ e ∷ f ∷ g ∷ h ∷ i ∷ j ∷ []) && nat_beq k 255 && nat_beq l 255
    then some (w ∷ x ∷ y ∷ z ∷ [])
    else none
mapped_ipv4 _ = none

-- `IP.To4`
unfoldable pub to4 : List ℕ → Option (List ℕ)
unfolding mapped_ipv4
to4 ip = if nat_beq (length ip) 4 then some ip else mapped_ipv4 ip

-- The ones of a byte whose ones all stand in front.
unfoldable pub leading_ones : ℕ → Option ℕ
leading_ones b =
    if nat_beq b 0
    then some 0
    else if nat_beq b 128
    then some 1
    else if nat_beq b 192
    then some 2
    else if nat_beq b 224
    then some 3
    else if nat_beq b 240
    then some 4
    else if nat_beq b 248
    then some 5
    else if nat_beq b 252
    then some 6
    else if nat_beq b 254
    then some 7
    else none

-- `simpleMaskLength`, with `none` for -1
unfoldable pub simple_mask_length : List ℕ → Option ℕ
unfolding is_zeros leading_ones
simple_mask_length [] = some 0
simple_mask_length (b ∷ mask) =
    let rest = simple_mask_length mask in
    if nat_beq b 255
    then elim rest [ none ↦ none | some n ↦ some (8 + n) ]
    else if is_zeros mask
    then leading_ones b
    else none

-- The first result of `IPMask.Size`.
unfoldable pub mask_size : List ℕ → ℕ
unfolding simple_mask_length
mask_size mask = elim (simple_mask_length mask) [ none ↦ 0 | some n ↦ n ]

unfoldable pub drop_twelve : List ℕ → List ℕ
drop_twelve (a ∷ b ∷ c ∷ d ∷ e ∷ f ∷ g ∷ h ∷ i ∷ j ∷ k ∷ l ∷ rest) = rest
drop_twelve _ = []

unfoldable pub number_and_mask : List ℕ → List ℕ → Option (List ℕ × List ℕ)
unfolding drop_twelve
number_and_mask ip m =
    if nat_beq (length m) 4
    then (if nat_beq (length ip) 4 then some (ip, m) else none)
    else if nat_beq (length m) 16
    then some (ip, if nat_beq (length ip) 4 then drop_twelve m else m)
    else none

-- `networkNumberAndMask`
unfoldable pub network_number_and_mask : IpNet → Option (List ℕ × List ℕ)
unfolding number_and_mask
network_number_and_mask n = elim (to4 n.ip) [
  | some ip ↦ number_and_mask ip n.mask
  | none ↦ if nat_beq (length n.ip) 16 then number_and_mask n.ip n.mask else none
]

unfoldable pub same_network : List ℕ → List ℕ → List ℕ → Bool
same_network (n ∷ ns) (m ∷ ms) (i ∷ is) =
    nat_beq (bit_and n m) (bit_and i m) && same_network ns ms is
same_network _ _ _ = true

unfoldable pub shorten : List ℕ → List ℕ
shorten ip = elim (to4 ip) [ none ↦ ip | some x ↦ x ]

-- `IPNet.Contains`
unfoldable pub contains : IpNet → List ℕ → Bool
unfolding network_number_and_mask same_network shorten to4
contains n ip = elim (network_number_and_mask n) [
  | none ↦ nat_beq (length ip) 0
  | some (nn, m) ↦ nat_beq (length (shorten ip)) (length nn) && same_network nn m (shorten ip)
]
