-- ===== src/Link/Safety/Mac.antt =====
-- The MAC address of a VXLAN device, from one calculation to the next.
use kosmos.Base.{
  ℕ, inl, inr, Option-cases, ◌∙◌, String, ◌≡◌, refl, ◌==◌, true, false, Option, none, some, is_some,
  returns, panics, Returns, ◌>>=◌, if◌then◌else◌, arith,
}
use kosmos.Api.Config.{Device}
use kosmos.Api.Node.{ClusterNode}
use kosmos.Link.Net.{Net}
use kosmos.Api.Cluster.{vxlan_device}
use kosmos.Link.Vxlan.{
  VxlanAttributes, generate_mac, generate_vxlan_ip, vxlan_attributes, build_vxlan_device,
  named_device,
}
use kosmos.Link.Filter.{get_device_from_node_config}
use kosmos.Link.Context.{Context}
use kosmos.Link.Handlers.Vxlan.{keep_mac, create_vxlan}

keep_mac-some :
    (old dev : Device)
    → (old.mac == "") ≡ false
    → keep_mac (some old) (some dev) ≡ returns (some (record dev { mac = old.mac }))
unfolding keep_mac
keep_mac-some old dev h = rw (h, if◌then◌else◌) refl

keep_mac-none : (old : Device) → (old.mac == "") ≡ false → keep_mac (some old) none ≡ panics
unfolding keep_mac
keep_mac-none old h = rw (h, if◌then◌else◌) refl

build_vxlan_device-named :
    (net : Net) (draws : ℕ) (name ip cidr bind : String) (v : VxlanAttributes) (a : Option String)
    → vxlan_attributes name ≡ some v
    → generate_vxlan_ip net ip cidr ≡ returns a
    → build_vxlan_device net draws name ip cidr bind ≡ returns (named_device net draws v bind a)
unfolding build_vxlan_device
build_vxlan_device-named net draws name ip cidr bind v a known e =
    simp (build_vxlan_device, known, e)

module _ (net : Net) (name : String) (c : Context) (n : ClusterNode) (ip cidr : String)
    (old : Device) (known : is_some (vxlan_attributes name) ≡ true)
    (before : get_device_from_node_config c.filter n.name name ≡ some old)
    (has_mac : (old.mac == "") ≡ false) where
  create_vxlan-built :
      (a : Option String)
      → generate_vxlan_ip net ip cidr ≡ returns a
      → (v : VxlanAttributes) × (create_vxlan net name c n ip cidr ≡ (
          keep_mac (some old) (named_device net c.draws v n.interface_name a).0 >>= λ kept.
          returns (kept, record c { draws = (named_device net c.draws v n.interface_name a).1 })))
  unfolding create_vxlan
  create_vxlan-built a e = elim (Option-cases (vxlan_attributes name)) [
    | inl k ↦ ground (arith, known, k)
    | inr (v, k) ↦ (
      v,
      rw (build_vxlan_device-named net c.draws name ip cidr n.interface_name v a k e, before) refl,
    )
  ]

  -- The device that `create_vxlan` returns.
  abbrev pub Kept : String → Option Device × Context → Type 0
  Kept addr (d, e) =
      (dev : Device) × (d ≡ some dev)
      × (dev.mac ≡ old.mac)
      × (dev.addr ≡ addr)
      × (e.results ≡ c.results)

  abbrev named_device_of : VxlanAttributes → String → Device
  named_device_of v addr = record {
    type = vxlan_device;
    name = v.name;
    addr = addr;
    mac = net.mac_string (generate_mac (net.random c.draws));
    bind_dev = n.interface_name;
    id = v.id;
    port = v.port;
  }

  -- If the name is one of the four names of devices, the last configuration of the node has the
  -- device, with a MAC address, and an address can be generated, then the device that is created has that address and the same MAC address as before.
  pub create_vxlan-Kept :
      (addr : String)
      → generate_vxlan_ip net ip cidr ≡ returns (some addr)
      → Returns (Kept addr) (create_vxlan net name c n ip cidr)
  unfolding named_device
  create_vxlan-Kept addr e =
      let (v, made) = create_vxlan-built (some addr) e in
      rw (made, keep_mac-some old (named_device_of v addr) has_mac) (_, refl, refl, refl, refl)

  -- If the name is one of the four names of devices, the last configuration of the node has the
  -- device, with a MAC address, and the generation of an address returns an error, then the creation panics: it writes the MAC address through nil.
  pub create_vxlan-panics :
      generate_vxlan_ip net ip cidr ≡ returns none → create_vxlan net name c n ip cidr ≡ panics
  unfolding named_device
  create_vxlan-panics e =
      let (v, made) = create_vxlan-built none e in made ∙ rw (keep_mac-none old has_mac) refl
