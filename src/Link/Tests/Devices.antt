-- ===== src/Link/Tests/Devices.antt =====
-- The device of a node, from one calculation to the next, and its addresses.
use kosmos.Base.{
  is_some, ◌/◌, ◌%◌, ◌^◌, none, returns, panics, arith, ◌≡◌, refl, true, some, [], ◌∷◌, Returns,
}
use kosmos.Api.Config.{Device}
use kosmos.Link.Addresses.{merge_ipv4-parts, IsLocalUnicast, generate_mac-IsLocalUnicast}
use kosmos.Link.Context.{Context}
use kosmos.Link.Handlers.Vxlan.{create_vxlan}
use kosmos.Link.Safety.Mac.{Kept, create_vxlan-Kept, create_vxlan-panics}
use kosmos.Link.Vxlan.{
  vxlan_attributes, merge_ipv4, generate_mac, generate_vxlan_ip, get_ip_type, ip_type_beq,
  change_ip_net_ipv4,
}
use kosmos.Link.Filter.{get_device_from_node_config}
use kosmos.Link.Tests.{net, cluster, node}

abbrev old_device : Device
old_device = record {
  type = "vxlan";
  name = "vx-local";
  addr = "";
  mac = "02:00:00:00:00:07";
  bind_dev = "eth0";
  id = 55;
  port = 4877;
}

-- The state of a calculation in which the node had a device before.
abbrev context : Context
context = record {
  filter = record {
    cluster_nodes = node ∷ [];
    clusters = cluster ∷ [];
    node_configs =
        record {
          name = "member-one";
          spec = record {
            devices = some (old_device ∷ []);
            routes = none;
            iptables = none;
            fdbs = none;
            arps = none;
          };
        }
        ∷ [];
    clusters_map = [];
  };
  results = [];
  draws = 0;
}

had_device : get_device_from_node_config context.filter node.name "vx-local" ≡ some old_device
unfolding get_device_from_node_config
had_device = refl

known_name : is_some (vxlan_attributes "vx-local") ≡ true
unfolding vxlan_attributes
known_name = refl

generated : generate_vxlan_ip net "10.0.0.1" "9.0.0.0/8" ≡ returns (some "9.0.0.1/8")
unfolding generate_vxlan_ip get_ip_type ip_type_beq change_ip_net_ipv4
generated = refl

create_vxlan-Kept_example :
    Returns
      (Kept net "vx-local" context node "10.0.0.1" "9.0.0.0/8" old_device known_name had_device refl
        "9.0.0.1/8")
      (create_vxlan net "vx-local" context node "10.0.0.1" "9.0.0.0/8")
create_vxlan-Kept_example =
    create_vxlan-Kept net "vx-local" context node "10.0.0.1" "9.0.0.0/8" old_device known_name
      had_device refl "9.0.0.1/8" generated

mixed_types : generate_vxlan_ip net "10.0.0.1" "fd00::/64" ≡ returns none
unfolding generate_vxlan_ip get_ip_type ip_type_beq
mixed_types = refl

create_vxlan-panics_example :
    create_vxlan net "vx-local" context node "10.0.0.1" "fd00::/64" ≡ panics
create_vxlan-panics_example =
    create_vxlan-panics net "vx-local" context node "10.0.0.1" "fd00::/64" old_device known_name
      had_device refl mixed_types

generate_mac-IsLocalUnicast_example : IsLocalUnicast (generate_mac (some (1 ∷ 7 ∷ [])))
generate_mac-IsLocalUnicast_example = generate_mac-IsLocalUnicast 1 (7 ∷ []) (omega arith)

merge_ipv4-parts_example :
    (merge_ipv4 8 0x09000000 0xc0a80105 / 2 ^ 24 ≡ 0x09000000 / 2 ^ 24)
    × (merge_ipv4 8 0x09000000 0xc0a80105 % 2 ^ 24 ≡ 0xc0a80105 % 2 ^ 24)
merge_ipv4-parts_example =
    merge_ipv4-parts 8 0x09000000 0xc0a80105 (omega arith) (omega arith) (omega arith)
