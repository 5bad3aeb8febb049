-- ===== src/Link/Tests.antt =====
-- One cluster with one node, and its calculation.
pub mod Devices
pub mod Server
pub mod Routing
pub mod Election
use kosmos.Base.{
  is_some, ◌/◌, ◌%◌, ◌^◌, none, returns, panics, arith, List, ◌≡◌, refl, inl, inr, true, false,
  some, [], ◌∷◌, In, Returns, deref, subst, sym,
}
use mathlib.Core.Option.{some-injective}
use kosmos.Base.Dict
use kosmos.Api.Config
use kosmos.Api.Config.{Device}
use kosmos.Link.Addresses.{merge_ipv4-parts, IsLocalUnicast, generate_mac-IsLocalUnicast}
use kosmos.Link.Context.{Context}
use kosmos.Link.Handlers.Vxlan.{create_vxlan}
use kosmos.Link.Safety.Mac.{Kept, create_vxlan-Kept, create_vxlan-panics}
use kosmos.Api.Cluster.{Cluster, ClusterLinkOptions}
use kosmos.Api.Node.{ClusterNode}
use kosmos.Link.Net.{Net}
use kosmos.Link.Vxlan.{
  vxlan_attributes, merge_ipv4, generate_mac, generate_vxlan_ip, get_ip_type, ip_type_beq,
  change_ip_net_ipv4,
}
use kosmos.Link.Filter.{
  get_device_from_node_config, build_clusters_map, insert_clusters, new_filter, get_cluster_by_name,
}
use kosmos.Link.Sort.{Sorting}
use kosmos.Link.Manager.{
  is_valid_cluster, is_valid_node, has_addresses, exclude_invalid_items, calculate_network_configs,
}
use kosmos.Link.Manager.Exclude.{IsValid, exclude_invalid_items-IsValid}
use kosmos.Link.Safety.Vxlan.{Addressed, CanAddress, IsAddressable}
use kosmos.Link.Safety.Chain.{filter_of, Calculated, calculate_network_configs-Calculated}

-- Reads every text as the same address, in the same network.
abbrev pub net : Net
net = record {
  parse_ip = λ s. some (10 ∷ 0 ∷ 0 ∷ 1 ∷ []);
  parse_cidr = λ s.
      some (10 ∷ 0 ∷ 0 ∷ 1 ∷ [], record { ip = 9 ∷ 0 ∷ 0 ∷ 0 ∷ []; mask = 255 ∷ 0 ∷ 0 ∷ 0 ∷ [] });
  ip_string = λ ip. "9.0.0.1";
  ip_net_string = λ n. "9.0.0.1/8";
  mac_string = λ mac. "02:00:00:00:00:01";
  random = λ n. some (0 ∷ 0 ∷ 0 ∷ 0 ∷ 0 ∷ 1 ∷ []);
}

abbrev options : ClusterLinkOptions
options = record {
  enable = true;
  cni = "calico";
  network_type = "p2p";
  ip_family = "ipv4";
  use_ip_pool = false;
  local_cidrs = record { ip = "9.0.0.0/8"; ip6 = "" };
  bridge_cidrs = record { ip = "9.0.0.0/8"; ip6 = "" };
  nic_node_names = [];
  default_nic_name = "*";
  global_cidrs_map = [];
  autodetection_method = "";
}

-- Leaves every list in the order that it has.
abbrev pub sorting : Sorting
sorting = record {
  marshal_device = λ d. some d.name;
  marshal_route = λ r. some r.cidr;
  marshal_iptables = λ i. some i.rule;
  marshal_fdb = λ f. some f.ip;
  marshal_arp = λ a. some a.ip;
  sort = λ less xs. xs;
}

abbrev pub cluster : Cluster
cluster = record {
  name = "member";
  link_options = some options;
  link_status = record { pod_cidrs = "10.1.0.0/16" ∷ []; service_cidrs = [] };
}

abbrev pub node : ClusterNode
node = record {
  name = "member-one";
  cluster_name = "member";
  node_name = "one";
  pod_cidrs = "10.1.0.0/16" ∷ [];
  ip = "10.0.0.1";
  ip6 = "";
  roles = "Gateway" ∷ [];
  interface_name = "eth0";
}

kept : In node (exclude_invalid_items (cluster ∷ []) (node ∷ [])).1
unfolding exclude_invalid_items is_valid_cluster is_valid_node has_addresses build_clusters_map
    insert_clusters Dict.insert Dict.lookup
kept = inl refl

known : Dict.lookup "member" (build_clusters_map (cluster ∷ [])) ≡ some cluster
unfolding build_clusters_map insert_clusters Dict.insert Dict.lookup
known = refl

exclude_invalid_items-IsValid_example :
    In node (node ∷ []) × IsValid (exclude_invalid_items (cluster ∷ []) (node ∷ [])).0 node
exclude_invalid_items-IsValid_example =
    exclude_invalid_items-IsValid (cluster ∷ []) (node ∷ []) node kept

addressed : Addressed net "10.0.0.1" "9.0.0.0/8"
unfolding generate_vxlan_ip get_ip_type ip_type_beq change_ip_net_ipv4
addressed p q = refl

can_address :
    (o : ClusterLinkOptions)
    → options ≡ o
    → Addressed net node.ip o.local_cidrs.ip
      × Addressed net node.ip6 o.local_cidrs.ip6
      × Addressed net node.ip o.bridge_cidrs.ip
      × Addressed net node.ip6 o.bridge_cidrs.ip6
can_address o e =
    subst
      (λ (o : ClusterLinkOptions).
        Addressed net node.ip o.local_cidrs.ip
        × Addressed net node.ip6 o.local_cidrs.ip6
        × Addressed net node.ip o.bridge_cidrs.ip
        × Addressed net node.ip6 o.bridge_cidrs.ip6)
      e (addressed, (λ p q. cc), addressed, (λ p q. cc))

resolved :
    (ncs : List Config.NodeConfig) (n : ClusterNode)
    → n ≡ node
    → Returns
        (CanAddress net n)
        (deref (get_cluster_by_name (filter_of (cluster ∷ []) (node ∷ []) ncs) n.cluster_name))
unfolding exclude_invalid_items is_valid_cluster is_valid_node has_addresses new_filter
    get_cluster_by_name build_clusters_map insert_clusters Dict.insert Dict.lookup
resolved ncs n e =
    subst
      (λ (n : ClusterNode).
        Returns (CanAddress net n)
          (deref (get_cluster_by_name (filter_of (cluster ∷ []) (node ∷ []) ncs) n.cluster_name)))
      (sym e) (λ o k. can_address o (some-injective options o k))

pub addressable :
    (ncs : List Config.NodeConfig) → IsAddressable net (filter_of (cluster ∷ []) (node ∷ []) ncs)
unfolding exclude_invalid_items is_valid_cluster is_valid_node has_addresses new_filter
    build_clusters_map insert_clusters Dict.insert Dict.lookup
addressable ncs = record {
  addresses = λ n m. elim m [ inl e ↦ resolved ncs n e | inr k ↦ absurd k ];
}

calculate_network_configs-Calculated_example :
    Returns
      (Calculated (exclude_invalid_items (cluster ∷ []) (node ∷ [])).1)
      (calculate_network_configs sorting net (cluster ∷ []) (node ∷ []) [])
calculate_network_configs-Calculated_example =
    calculate_network_configs-Calculated sorting net (cluster ∷ []) (node ∷ []) [] (addressable [])
