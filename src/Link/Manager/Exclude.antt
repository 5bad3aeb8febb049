-- ===== src/Link/Manager/Exclude.antt =====
-- What `ExcludeInvalidItems` lets through.
use kosmos.Base.{
  String, ◌≡◌, ◌≢◌, ◌⊎◌, inl, inr, Bool, true, false, not, ◌&&◌, ◌==◌, eq_iff, none, some, List, [],
  ◌∷◌, filter, filter-In, In, is_some, Returns, deref, and_left, and_right, arith, if◌then◌else◌,
  Option-cases, ap,
}
use kosmos.Base.Dict
use kosmos.Base.Dict.{Dict, lookup-insert}
use kosmos.Api.Config
use kosmos.Api.Cluster.{Cluster, ClusterLinkOptions, ip_family_all, ip_family_ipv4, ip_family_ipv6}
use kosmos.Api.Node.{ClusterNode}
use kosmos.Link.Filter.{insert_clusters, build_clusters_map, new_filter, get_cluster_by_name}
use kosmos.Link.Manager.{is_valid_cluster, has_addresses, is_valid_node, exclude_invalid_items}
use kosmos.Link.Safety.{IsResolved, HasOptions}

lookup-insert_clusters :
    (k : String) (cs : List Cluster) (m : Dict Cluster) (c : Cluster)
    → Dict.lookup k (insert_clusters cs m) ≡ some c
    → (In c cs × (c.name ≡ k)) ⊎ (Dict.lookup k m ≡ some c)
unfolding insert_clusters
lookup-insert_clusters k [] m c e = inr e
lookup-insert_clusters k (x ∷ cs) m c e =
    elim (lookup-insert_clusters k cs (Dict.insert x.name x m) c e) [
      | inl r ↦ inl (inr r.0, r.1)
      | inr l ↦ here (rw lookup-insert at l)
    ]
  where
    here :
        (if x.name == k then some x else Dict.lookup k m) ≡ some c
        → (In c (x ∷ cs) × (c.name ≡ k)) ⊎ (Dict.lookup k m ≡ some c)
    here h = ground (arith, eq_iff x.name k, h)

-- What the map of the clusters returns for a name is one of them, and has that name.
pub lookup-build_clusters_map :
    (k : String) (cs : List Cluster) (c : Cluster)
    → Dict.lookup k (build_clusters_map cs) ≡ some c
    → In c cs × (c.name ≡ k)
unfolding build_clusters_map Dict.lookup
lookup-build_clusters_map k cs c e = elim (lookup-insert_clusters k cs [] c e) [
  | inl r ↦ r
  | inr h ↦ cc
]

-- A node that can take part: its cluster is there, is enabled, and has an address of each family
-- that the cluster supports.
pub record IsValid (clusters : List Cluster) (n : ClusterNode) : Type 0 where
  pub cluster : Cluster
  pub options : ClusterLinkOptions
  pub known : In cluster clusters
  pub named : cluster.name ≡ n.cluster_name
  pub linked : cluster.link_options ≡ some options
  pub enabled : options.enable ≡ true
  pub interface : n.interface_name ≢ ""
  pub address4 :
      (options.ip_family ≡ ip_family_all) ⊎ (options.ip_family ≡ ip_family_ipv4) → n.ip ≢ ""
  pub address6 :
      (options.ip_family ≡ ip_family_all) ⊎ (options.ip_family ≡ ip_family_ipv6) → n.ip6 ≢ ""

abbrev Options : Dict Cluster → ClusterNode → Type 0
Options m n =
    (c : Cluster) × (o : ClusterLinkOptions) × (Dict.lookup n.cluster_name m ≡ some c)
    × (c.link_options ≡ some o)
    × (has_addresses o n ≡ true)

lookup-Options :
    (m : Dict Cluster) (n : ClusterNode)
    → (elim (Dict.lookup n.cluster_name m) [
      | none ↦ false
      | some c ↦ elim c.link_options [ none ↦ false | some o ↦ has_addresses o n ]
    ])
      ≡ true
    → Options m n
lookup-Options m n h = elim (Option-cases (Dict.lookup n.cluster_name m)) [
  | inl e ↦ cc
  | inr (c, e) ↦ options c e (rw e at h)
]
  where
    options :
        (c : Cluster)
        → Dict.lookup n.cluster_name m ≡ some c
        → (elim c.link_options [ none ↦ false | some o ↦ has_addresses o n ]) ≡ true
        → Options m n
    options c e k = elim (Option-cases c.link_options) [
      | inl l ↦ cc
      | inr (o, l) ↦ (c, o, e, l, rw l at k)
    ]

not-true : (b : Bool) → not b ≡ true → b ≡ false
not-true b h = ground arith

valid_cluster-enabled :
    (c : Cluster) (o : ClusterLinkOptions)
    → is_valid_cluster c ≡ true
    → c.link_options ≡ some o
    → o.enable ≡ true
unfolding is_valid_cluster
valid_cluster-enabled c o h l = rw l at h

valid :
    (cs : List Cluster) (n : ClusterNode) (c : Cluster) (o : ClusterLinkOptions)
    → (n.interface_name == "") ≡ false
    → In c cs × (c.name ≡ n.cluster_name)
    → c.link_options ≡ some o
    → o.enable ≡ true
    → has_addresses o n ≡ true
    → IsValid cs n
unfolding has_addresses
valid cs n c o interface known l enabled a = record {
  cluster = c;
  options = o;
  known = known.0;
  named = known.1;
  linked = l;
  enabled = enabled;
  interface = λ e. ground (arith, eq_iff n.interface_name "");
  address4 = λ d e.
      ground (
        arith,
        eq_iff n.ip "",
        eq_iff o.ip_family ip_family_all,
        eq_iff o.ip_family ip_family_ipv4,
      );
  address6 = λ d e.
      ground (
        arith,
        eq_iff n.ip6 "",
        eq_iff o.ip_family ip_family_all,
        eq_iff o.ip_family ip_family_ipv6,
      );
}

valid_node :
    (m : Dict Cluster) (n : ClusterNode)
    → is_valid_node m n ≡ true
    → ((n.interface_name == "") ≡ false) × Options m n
unfolding is_valid_node
valid_node m n h =
    let name = not (n.cluster_name == "") in
    let device = not (n.interface_name == "") in
    let tested = and_left (name && device) _ h in
    (not-true _ (and_right name device tested), lookup-Options m n (and_right (name && device) _ h))

kept_node :
    (clusters : List Cluster) (cluster_nodes : List ClusterNode) (n : ClusterNode)
    → In n (exclude_invalid_items clusters cluster_nodes).1
    → In n cluster_nodes
      × ((n.interface_name == "") ≡ false)
      × Options (build_clusters_map (exclude_invalid_items clusters cluster_nodes).0) n
unfolding exclude_invalid_items
kept_node clusters cluster_nodes n m =
    let map_of = build_clusters_map (filter is_valid_cluster clusters) in
    let kept = filter-In (is_valid_node map_of) n cluster_nodes m in
    let tested = valid_node map_of n kept.1 in (kept.0, tested.0, tested.1)

-- A kept node is one of the nodes given. It has an interface, one of the kept clusters has the name
-- that it gives, with options that are enabled, and it has an address of each family that those
-- options support.
pub exclude_invalid_items-IsValid :
    (clusters : List Cluster) (cluster_nodes : List ClusterNode) (n : ClusterNode)
    → In n (exclude_invalid_items clusters cluster_nodes).1
    → In n cluster_nodes × IsValid (exclude_invalid_items clusters cluster_nodes).0 n
unfolding exclude_invalid_items
exclude_invalid_items-IsValid clusters cluster_nodes n m =
    let cs = filter is_valid_cluster clusters in
    let (member, interface, options) = kept_node clusters cluster_nodes n m in
    let (c, o, e, l, a) = options in
    let known = lookup-build_clusters_map n.cluster_name cs c e in
    let tested = filter-In is_valid_cluster c clusters known.0 in
    (member, valid cs n c o interface known l (valid_cluster-enabled c o tested.1 l) a)

Options-resolve :
    (m : Dict Cluster) (n : ClusterNode)
    → Options m n
    → Returns HasOptions (deref (Dict.lookup n.cluster_name m))
Options-resolve m n (c, o, e, l, a) = rw e (ap is_some l)

-- So every node of the filter has a cluster with options.
pub exclude_invalid_items-IsResolved :
    (clusters : List Cluster) (cluster_nodes : List ClusterNode)
    (node_configs : List Config.NodeConfig)
    → IsResolved (
        new_filter
          (exclude_invalid_items clusters cluster_nodes).0
          (exclude_invalid_items clusters cluster_nodes).1
          node_configs)
unfolding new_filter get_cluster_by_name
exclude_invalid_items-IsResolved clusters cluster_nodes node_configs = record {
  resolves = λ n m.
      Options-resolve (build_clusters_map (exclude_invalid_items clusters cluster_nodes).0) n
        (kept_node clusters cluster_nodes n m).2;
}
