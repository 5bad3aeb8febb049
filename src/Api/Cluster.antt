-- ===== src/Api/Cluster.antt =====
-- pkg/apis/kosmos/v1alpha1/cluster_types.go and constants.go: the part of a cluster that cluster
-- link reads. The kubeconfig, the image settings and the cluster tree options are left out.
use kosmos.Base.{String, Bool, false, ◌==◌, Option, none, some, List}
use kosmos.Base.Dict.{Dict}

abbrev pub network_type_p2p : String
network_type_p2p = "p2p"

abbrev pub network_type_gateway : String
network_type_gateway = "gateway"

abbrev pub ip_family_all : String
ip_family_all = "all"

abbrev pub ip_family_ipv4 : String
ip_family_ipv4 = "ipv4"

abbrev pub ip_family_ipv6 : String
ip_family_ipv6 = "ipv6"

abbrev pub role_gateway : String
role_gateway = "gateway"

abbrev pub vxlan_device : String
vxlan_device = "vxlan"

pub record VxlanCidrs : Type 0 where
  pub ip : String
  pub ip6 : String

pub record NicNodeNames : Type 0 where
  pub interface_name : String
  pub node_name : List String

pub record ClusterLinkOptions : Type 0 where
  pub enable : Bool
  pub cni : String
  pub network_type : String
  pub ip_family : String
  pub use_ip_pool : Bool
  pub local_cidrs : VxlanCidrs
  pub bridge_cidrs : VxlanCidrs
  pub nic_node_names : List NicNodeNames
  pub default_nic_name : String
  pub global_cidrs_map : Dict String
  pub autodetection_method : String

pub record ClusterLinkStatus : Type 0 where
  pub pod_cidrs : List String
  pub service_cidrs : List String

-- `Spec.ClusterLinkOptions` and `Status.ClusterLinkStatus`.
pub record Cluster : Type 0 where
  pub name : String
  pub link_options : Option ClusterLinkOptions
  pub link_status : ClusterLinkStatus

unfoldable pub is_p2p : Cluster → Bool
is_p2p c = elim c.link_options [ none ↦ false | some o ↦ o.network_type == network_type_p2p ]

unfoldable pub is_gateway : Cluster → Bool
is_gateway c = elim c.link_options [
  | none ↦ false
  | some o ↦ o.network_type == network_type_gateway
]
