-- ===== src/Link/Safety.antt =====
-- The handlers never panic, and keep one configuration for each node: what they rely on of the
-- filter, what they keep of the state, and the facts that the proofs for each handler share.
pub mod Routes
pub mod HostNetwork
pub mod MacCache
pub mod Vxlan
pub mod Devices
pub mod Chain
pub mod Mac
pub mod Apart
pub mod Conflict
use kosmos.Base.{
  String, ◌≡◌, refl, sym, ap, subst, Bool, true, false, ◌==◌, eq_iff, Option, none, some, is_some,
  List, [], ◌∷◌, ◌++◌, any, In, In-append, for_each, for_each-Returns, In-any, filter-In,
  filter_map-In, flat_map-In, find-In, and_left, and_right, arith, Outcome, returns, Returns,
  Returns-bind, Returns-if, Returns-option, Returns-mono, deref, deref-Returns, select,
  select-Returns, Bool-cases, inl, inr, ◌>>=◌, if◌then◌else◌,
}
use kosmos.Base.Dict
use kosmos.Base.Dict.{lookup-insert}
use kosmos.Api.Cluster
use kosmos.Api.Cluster.{Cluster, ClusterLinkOptions}
use kosmos.Api.Node
use kosmos.Api.Node.{ClusterNode}
use kosmos.Link.Filter.{
  Filter, get_cluster_by_name, get_gateway_nodes, get_gateway_node_by_cluster_name,
  get_internal_nodes, get_endpoint_nodes, get_internal_nodes_by_cluster_name,
  get_all_nodes_by_cluster_name, get_all_nodes_except_cluster, get_gateway_cluster_nodes,
  link_options_of, support_ipv4, support_ipv6,
}
use kosmos.Link.Context.{NodeConfig, Context, Handler, update, without_error}

abbrev pub HasOptions : Cluster → Type 0
HasOptions c = is_some c.link_options ≡ true

-- Every node's cluster is in the map, and has options.
pub record IsResolved (f : Filter) : Type 0 where
  pub resolves :
      (n : ClusterNode)
      → In n f.cluster_nodes
      → Returns HasOptions (deref (get_cluster_by_name f n.cluster_name))

-- The filter is still `f`, and the results have a configuration for the nodes of `f` and for no
-- other name.
pub record Ready (f : Filter) (c : Context) : Type 0 where
  pub same : c.filter ≡ f
  pub keys :
      (name : String)
      → is_some (Dict.lookup name c.results) ≡ any (λ n. n.name == name) f.cluster_nodes

module _ (f : Filter) (c : Context) (r : Ready f c) where
  -- A write to the configuration of a node of the filter succeeds.
  pub update-Ready :
      (n : ClusterNode) (g : NodeConfig → NodeConfig)
      → In n f.cluster_nodes
      → Returns (Ready f) (update n.name g c)
  unfolding update
  update-Ready n g m =
      Returns-bind (λ k. Dict.lookup n.name c.results ≡ some k) (Ready f)
        (deref (Dict.lookup n.name c.results)) _ (deref-Returns _ there)
        (λ k e. record { same = r.same; keys = λ name. keys_after k name })
    where
      there : is_some (Dict.lookup n.name c.results) ≡ true
      there = ground (
        arith,
        r.keys n.name,
        In-any (λ x. x.name == n.name) n f.cluster_nodes m ((eq_iff _ _).1 refl),
      )

      keys_after :
          (k : NodeConfig) (name : String)
          → is_some (Dict.lookup name (Dict.insert n.name (g k) c.results))
            ≡ any (λ x. x.name == name) f.cluster_nodes
      keys_after k name = rw lookup-insert (
          ground (
            arith,
            r.keys name,
            eq_iff n.name name,
            In-any (λ x. x.name == name) n f.cluster_nodes m,
          ))

module _ (f : Filter) (ok : IsResolved f) where
  pub resolves_at :
      (c : Context) (n : ClusterNode)
      → Ready f c
      → In n f.cluster_nodes
      → Returns HasOptions (deref (get_cluster_by_name c.filter n.cluster_name))
  resolves_at c n r m = rw r.same (ok.resolves n m)

  link_options-Returns :
      (n : ClusterNode) → In n f.cluster_nodes → Returns (λ _. Unit {0}) (link_options_of f n)
  unfolding link_options_of
  link_options-Returns n m =
      Returns-bind HasOptions (λ _. Unit {0}) _ _ (ok.resolves n m)
        (λ c h.
          Returns-mono (λ o. c.link_options ≡ some o) (λ _. Unit {0}) _ (λ o e. tt)
            (deref-Returns c.link_options h))

  support_ipv4-Returns :
      (n : ClusterNode) → In n f.cluster_nodes → Returns (λ _. Unit {0}) (support_ipv4 f n)
  unfolding support_ipv4
  support_ipv4-Returns n m =
      Returns-bind (λ _. Unit {0}) (λ _. Unit {0}) (link_options_of f n) _
        (link_options-Returns n m) (λ o h. tt)

  support_ipv6-Returns :
      (n : ClusterNode) → In n f.cluster_nodes → Returns (λ _. Unit {0}) (support_ipv6 f n)
  unfolding support_ipv6
  support_ipv6-Returns n m =
      Returns-bind (λ _. Unit {0}) (λ _. Unit {0}) (link_options_of f n) _
        (link_options-Returns n m) (λ o h. tt)

  pub support_ipv4_at :
      (c : Context) (n : ClusterNode)
      → Ready f c
      → In n f.cluster_nodes
      → Returns (λ _. Unit {0}) (support_ipv4 c.filter n)
  support_ipv4_at c n r m = rw r.same (support_ipv4-Returns n m)

  pub support_ipv6_at :
      (c : Context) (n : ClusterNode)
      → Ready f c
      → In n f.cluster_nodes
      → Returns (λ _. Unit {0}) (support_ipv6 c.filter n)
  support_ipv6_at c n r m = rw r.same (support_ipv6-Returns n m)

-- The lists that a filter hands out hold its nodes only.
abbrev pub OfFilter : Filter → List ClusterNode → Type 0
OfFilter f ns = (n : ClusterNode) → In n ns → In n f.cluster_nodes

module _ (f : Filter) where
  pub gateway_node-In :
      (name : String) (n : ClusterNode)
      → get_gateway_node_by_cluster_name f name ≡ some n
      → In n f.cluster_nodes × (n.cluster_name ≡ name) × (Node.is_gateway n ≡ true)
  unfolding get_gateway_node_by_cluster_name
  gateway_node-In name n e =
      let r = find-In _ f.cluster_nodes n e in
      (r.0, (eq_iff _ _).0 (and_left _ _ r.1), and_right (n.cluster_name == name) _ r.1)

  pub get_gateway_nodes-OfFilter : OfFilter f (get_gateway_nodes f)
  unfolding get_gateway_nodes
  get_gateway_nodes-OfFilter n m =
      let r = filter_map-In _ n f.clusters m in (gateway_node-In r.0.name n r.2).0

  pub get_all_nodes_except_cluster-OfFilter :
      (name : String) → OfFilter f (get_all_nodes_except_cluster f name)
  unfolding get_all_nodes_except_cluster
  get_all_nodes_except_cluster-OfFilter name n m = (filter-In _ n f.cluster_nodes m).0

  pub get_gateway_cluster_nodes-OfFilter : OfFilter f (get_gateway_cluster_nodes f)
  unfolding get_gateway_cluster_nodes get_all_nodes_by_cluster_name
  get_gateway_cluster_nodes-OfFilter n m = let r = flat_map-In _ n f.clusters m in member r.0 r.2
    where
      member :
          (c : Cluster)
          → In n (if Cluster.is_gateway c then get_all_nodes_by_cluster_name f c.name else [])
          → In n f.cluster_nodes
      member c k = elim (Bool-cases (Cluster.is_gateway c)) [
        | inl e ↦ (filter-In _ n f.cluster_nodes (rw (e, if◌then◌else◌) at k)).0
        | inr e ↦ absurd (rw (e, if◌then◌else◌) at k)
      ]

module _ (f : Filter) (ok : IsResolved f) where
  -- A test of a node's cluster and of the node returns on every node of the filter.
  select_of_cluster :
      (test : ClusterNode → Cluster → Bool)
      → Returns (OfFilter f) (
          select
            (λ n. do
              cluster ← deref (get_cluster_by_name f n.cluster_name)
              returns (test n cluster))
            f.cluster_nodes)
  select_of_cluster test =
      Returns-mono _ (OfFilter f) _ (λ ns s n m. (s n m).0)
        (select-Returns _ f.cluster_nodes
          (λ n m. Returns-bind HasOptions (λ _. Unit {0}) _ _ (ok.resolves n m) (λ c h. tt)))

  pub get_internal_nodes-OfFilter : Returns (OfFilter f) (get_internal_nodes f)
  unfolding get_internal_nodes
  get_internal_nodes-OfFilter = select_of_cluster _

  pub get_endpoint_nodes-OfFilter : Returns (OfFilter f) (get_endpoint_nodes f)
  unfolding get_endpoint_nodes
  get_endpoint_nodes-OfFilter = select_of_cluster _

  pub get_internal_nodes_by_cluster_name-OfFilter :
      (name : String) → Returns (OfFilter f) (get_internal_nodes_by_cluster_name f name)
  unfolding get_internal_nodes_by_cluster_name
  get_internal_nodes_by_cluster_name-OfFilter name = select_of_cluster _

-- From a ready state the handler returns no error and leaves a ready state.
abbrev pub Done : Filter → Option String × Context → Type 0
Done f (e, c) = (e ≡ none) × Ready f c

abbrev pub IsSafe : Filter → Handler → Type 0
IsSafe f h = (c : Context) → Ready f c → Returns (Done f) (h c)

pub without_error-Done :
    (f : Filter) (r : Outcome Context) → Returns (Ready f) r → Returns (Done f) (without_error r)
without_error-Done f r h = Returns-bind (Ready f) (Done f) r _ h (λ c k. (refl, k))

-- The gateways and the endpoint nodes together are nodes of the filter.
pub edge_nodes :
    (f : Filter) (endpoints : List ClusterNode)
    → OfFilter f endpoints
    → OfFilter f (get_gateway_nodes f ++ endpoints)
edge_nodes f endpoints of n m = elim (In-append n (get_gateway_nodes f) endpoints m) [
  | inl k ↦ get_gateway_nodes-OfFilter f n k
  | inr k ↦ of n k
]

-- The two loops that most handlers consist of.
module _ (f : Filter) (ok : IsResolved f) (body : ClusterNode → Context → Outcome Context)
    (keep : (n : ClusterNode) (c : Context)
      → In n f.cluster_nodes
      → Ready f c
      → Returns (Ready f) (body n c)) where
  pub for_each_of :
      (g : Filter) (ns : List ClusterNode) (c : Context)
      → g ≡ f
      → OfFilter g ns
      → Ready f c
      → Returns (Ready f) (for_each ns body c)
  for_each_of g ns c e of r =
      for_each-Returns (Ready f) ns body
        (λ n m d q. keep n d (subst (λ g. In n g.cluster_nodes) e (of n m)) q) c r

  -- Over the gateways.
  pub for_each_gateway :
      (c : Context) → Ready f c → Returns (Ready f) (for_each (get_gateway_nodes c.filter) body c)
  for_each_gateway c r = for_each_of c.filter _ c r.same (get_gateway_nodes-OfFilter c.filter) r

  -- Over the gateways and the endpoint nodes.
  pub for_each_edge :
      (c : Context)
      → Ready f c
      → Returns (Done f) (
          get_endpoint_nodes c.filter >>= λ endpoints.
          without_error (for_each (get_gateway_nodes c.filter ++ endpoints) body c))
  for_each_edge c r =
      Returns-bind (OfFilter c.filter) (Done f) (get_endpoint_nodes c.filter) _
        (get_endpoint_nodes-OfFilter c.filter (subst IsResolved (sym r.same) ok))
        (λ endpoints of. without_error-Done f _ (
          for_each_of c.filter (get_gateway_nodes c.filter ++ endpoints) c r.same
            (edge_nodes c.filter endpoints of) r))
