-- ===== src/Link/Vxlan.antt =====
-- pkg/clusterlink/network-manager/helpers/network.go: the address, the MAC and the attributes of a
-- VXLAN device, and pkg/utils/net/network.go.
use Prim.Native.Nat.{bit_and, bit_or, bit_xor}
use kosmos.Base.{
  ℕ, suc, ◌+◌, ◌-◌, ◌*◌, ◌/◌, ◌%◌, ◌^◌, String, Bool, true, ◌||◌, ◌==◌, Option, none, some, List,
  [], ◌∷◌, leb, nat_beq, Outcome, returns, panics, ◌>>=◌, deref, if◌then◌else◌,
}
use kosmos.Api.Config.{Device}
use kosmos.Api.Cluster.{vxlan_device}
use kosmos.Api.Node.{codes}
use kosmos.Link.Net.{Net, IpNet, to4, mask_size, contains}

-- `IPType`; `unknown_type` is the -1 of `GetIPType`.
pub data IpType : Type 0 where
  ipv4 ipv6 unknown_type : IpType

unfoldable pub ip_type_beq : IpType → IpType → Bool
ip_type_beq ipv4 ipv4 = true
ip_type_beq ipv6 ipv6 = true
ip_type_beq unknown_type unknown_type = true
ip_type_beq _ _ = Bool.false

unfoldable pub ip_type_of : List ℕ → IpType
ip_type_of [] = unknown_type
ip_type_of (c ∷ s) = if nat_beq c b'.' then ipv4 else if nat_beq c b':' then ipv6 else ip_type_of s

-- The type is that of the first dot or colon.
unfoldable pub get_ip_type : String → IpType
unfolding ip_type_of
get_ip_type s = ip_type_of (codes s)

-- Sets the local bit of the first byte and clears its group bit.
unfoldable pub generate_mac : Option (List ℕ) → List ℕ
generate_mac none = []
generate_mac (some []) = []
generate_mac (some (b ∷ buf)) = bit_and (bit_or b 2) 0xfe ∷ buf

-- `binary.BigEndian.Uint32` panics on fewer than four bytes.
unfoldable pub uint32 : List ℕ → Outcome ℕ
uint32 (a ∷ b ∷ c ∷ d ∷ _) = returns (a * 2 ^ 24 + b * 2 ^ 16 + c * 2 ^ 8 + d)
uint32 _ = panics

unfoldable pub put_uint32 : ℕ → List ℕ
put_uint32 v = v / 2 ^ 24 % 256 ∷ v / 2 ^ 16 % 256 ∷ v / 2 ^ 8 % 256 ∷ v % 256 ∷ []

-- `((dest >> (32 - m)) << (32 - m)) | ((ip << m) >> m)` on uint32
unfoldable pub merge_ipv4 : ℕ → ℕ → ℕ → ℕ
merge_ipv4 m dest ip =
    bit_or (dest / 2 ^ (32 - m) * 2 ^ (32 - m) % 2 ^ 32) (ip * 2 ^ m % 2 ^ 32 / 2 ^ m)

-- A shift by a negative number panics.
unfoldable pub change_ip_net_ipv4 : List ℕ → IpNet → Outcome IpNet
unfolding uint32 put_uint32 merge_ipv4 to4 mask_size
change_ip_net_ipv4 ip dest_net = do
  ip_bytes ← deref (to4 ip)
  dest_bytes ← deref (to4 dest_net.ip)
  ip_bits ← uint32 ip_bytes
  dest_bits ← uint32 dest_bytes
  let m = mask_size dest_net.mask
  if leb m 32
      then returns
          (record { ip = put_uint32 (merge_ipv4 m dest_bits ip_bits); mask = dest_net.mask })
      else panics

unfoldable pub merge_byte : ℕ → ℕ → ℕ → ℕ
merge_byte mask ip dest = bit_or (bit_and (bit_xor mask 0xff) ip) (bit_and dest mask)

-- An index past the end of the mask or of the network's address panics.
unfoldable pub merge_ipv6 : List ℕ → List ℕ → List ℕ → Outcome (List ℕ)
unfolding merge_byte
merge_ipv6 [] masks dests = returns []
merge_ipv6 (i ∷ is) (m ∷ ms) (d ∷ ds) = do
  rest ← merge_ipv6 is ms ds
  returns (merge_byte m i d ∷ rest)
merge_ipv6 _ _ _ = panics

unfoldable pub change_ip_net_ipv6 : List ℕ → IpNet → Outcome IpNet
unfolding merge_ipv6
change_ip_net_ipv6 ip dest_net = do
  target ← merge_ipv6 ip dest_net.mask dest_net.ip
  returns (record { ip = target; mask = dest_net.mask })

pub record VxlanAttributes : Type 0 where
  pub name : String
  pub id : ℕ
  pub port : ℕ

abbrev pub vxlan_bridge_name : String
vxlan_bridge_name = "vx-bridge"

abbrev pub vxlan_local_name : String
vxlan_local_name = "vx-local"

abbrev pub vxlan_bridge_name_6 : String
vxlan_bridge_name_6 = "vx-bridge-6"

abbrev pub vxlan_local_name_6 : String
vxlan_local_name_6 = "vx-local-6"

-- The chain of tests on the name at the head of `BuildVxlanDevice`.
unfoldable pub vxlan_attributes : String → Option VxlanAttributes
vxlan_attributes name =
    if name == vxlan_bridge_name
    then some (record { name = vxlan_bridge_name; id = 54; port = 4876 })
    else if name == vxlan_bridge_name_6
    then some (record { name = vxlan_bridge_name_6; id = 64; port = 4866 })
    else if name == vxlan_local_name
    then some (record { name = vxlan_local_name; id = 55; port = 4877 })
    else if name == vxlan_local_name_6
    then some (record { name = vxlan_local_name_6; id = 65; port = 4867 })
    else none

module _ (net : Net) where
  -- `none` is an error.
  unfoldable pub generate_vxlan_ip : String → String → Outcome (Option String)
  unfolding get_ip_type ip_type_beq change_ip_net_ipv4 change_ip_net_ipv6
  generate_vxlan_ip underlay_ip dest_net_string =
      let change_ip_net = λ (ip : List ℕ) (dest_net : IpNet).
        if ip_type_beq (get_ip_type underlay_ip) ipv4
        then change_ip_net_ipv4 ip dest_net
        else change_ip_net_ipv6 ip dest_net in
      if ip_type_beq (get_ip_type underlay_ip) (get_ip_type dest_net_string)
      then elim (net.parse_ip underlay_ip) [
        | none ↦ returns none
        | some ip ↦ elim (net.parse_cidr dest_net_string) [
          | none ↦ returns none
          | some (_, dest_net) ↦ do
            new_ip ← change_ip_net ip dest_net
            returns (some (net.ip_net_string new_ip))
        ]
      ]
      else returns none

  unfoldable pub named_device : ℕ → VxlanAttributes → String → Option String → Option Device × ℕ
  unfolding generate_mac
  named_device draws v bind_dev none = (none, draws)
  named_device draws v bind_dev (some addr) = (
    some (record {
      type = vxlan_device;
      name = v.name;
      addr = addr;
      mac = net.mac_string (generate_mac (net.random draws));
      bind_dev = bind_dev;
      id = v.id;
      port = v.port;
    }),
    suc draws,
  )

  -- `draws` counts the reads of `crypto/rand` so far.
  unfoldable pub build_vxlan_device :
      ℕ → String → String → String → String → Outcome (Option Device × ℕ)
  unfolding vxlan_attributes named_device generate_vxlan_ip
  build_vxlan_device draws dev_name underlay_ip dest_net_string bind_dev =
      elim (vxlan_attributes dev_name) [
        | none ↦ returns (none, draws)
        | some v ↦ do
          addr ← generate_vxlan_ip underlay_ip dest_net_string
          returns (named_device draws v bind_dev addr)
      ]

  -- Networks that do not parse count as intersecting.
  unfoldable pub intersect : String → String → Bool
  unfolding contains
  intersect net1 net2 = elim (net.parse_cidr net1) [
    | none ↦ true
    | some (_, n1) ↦ elim (net.parse_cidr net2) [
      | none ↦ true
      | some (_, n2) ↦ contains n1 n2.ip || contains n2 n1.ip
    ]
  ]
