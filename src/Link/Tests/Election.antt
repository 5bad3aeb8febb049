-- ===== src/Link/Tests/Election.antt =====
-- Two nodes of one cluster, and sets of texts as lists.
use kosmos.Base.{
  String, ◌≡◌, refl, sym, ap, subst, ◌≢◌, inl, inr, true, false, not, none, List, [], ◌∷◌, map,
  arith, eq_iff, ◌==◌, filter, In, In-filter, filter-In,
}
use kosmos.Api.Node.{ClusterNode}
use kosmos.Api.Cluster.{role_gateway}
use kosmos.Link.Elector.{Sets, Elector, Client, ensure_gateway_role}
use kosmos.Link.Elector.Roles.{IsSets, IsExact, Elects, elected}
use kosmos.Link.Elector.Settled.{put, IsServer, Distinct, ensure_gateway_role-Elected}

abbrev sets : Sets (List String)
sets = record {
  empty = [];
  insert = λ x t. x ∷ t;
  delete = λ x t. filter (λ y. not (x == y)) t;
  unsorted_list = λ t. t;
}

sets-IsSets : IsSets sets
sets-IsSets = record {
  empties = λ r m. m;
  inserts = λ x r t. (λ m. m, λ m. m);
  deletes = λ x r t. (
    λ m. let (i, h) = filter-In (λ y. not (x == y)) r t m in (ground (arith, h, eq_iff x r), i),
    λ (d, i).
        let other = d in In-filter (λ y. not (x == y)) r t i (ground (arith, other, eq_iff x r)),
  );
}

abbrev client : Client (List ClusterNode)
client = record {
  list_nodes = λ s. inr s;
  get_cluster = λ name s. none;
  update_node = λ n s. (none, put n s);
}

abbrev view : List ClusterNode → List ClusterNode
view s = s

server : IsServer view client
server = record {
  lists = λ s. refl;
  gets = λ name s. refl;
  updates_succeed = λ n s. refl;
  updates = λ n s. refl;
}

abbrev node : String → List String → ClusterNode
node name roles = record {
  name = name;
  cluster_name = "c";
  node_name = name;
  pod_cidrs = [];
  ip = "";
  ip6 = "";
  roles = roles;
  interface_name = "";
}

abbrev nodes : List ClusterNode
nodes = node "a" (role_gateway ∷ []) ∷ node "b" [] ∷ []

abbrev elector : Elector
elector = record { node_name = "b"; cluster_name = "c" }

nodes-Distinct : Distinct nodes
nodes-Distinct = (λ m i. other m i, (λ m i. absurd i, tt))
  where
    other : (m : ClusterNode) → In m (node "b" [] ∷ []) → m.name ≢ "a"
    other m (inl e) =
        rw (ap (λ (n : ClusterNode). n.name) e)
          (λ q. let h : false ≡ true = (eq_iff "b" "a").1 q in cc)
    other m (inr j) = absurd j

nodes-IsExact : (n : ClusterNode) → In n nodes → IsExact n
nodes-IsExact n (inl e) = subst IsExact (sym e) only
  where
    only : IsExact (node "a" (role_gateway ∷ []))
    only r (inl q) h = q
    only r (inr j) h = absurd j
nodes-IsExact n (inr (inl e)) = subst IsExact (sym e) none_
  where
    none_ : IsExact (node "b" [])
    none_ r j h = absurd j
nodes-IsExact n (inr (inr j)) = absurd j

ensure_gateway_role-Elected_example :
    ((ensure_gateway_role sets client elector nodes).0 ≡ none)
    × (view (ensure_gateway_role sets client elector nodes).1
        ≡ map (elected sets elector) (view nodes))
    × ((n : ClusterNode) → In n (view nodes) → Elects elector n (elected sets elector n))
    × (ensure_gateway_role sets client elector (ensure_gateway_role sets client elector nodes).1
        ≡ (none, (ensure_gateway_role sets client elector nodes).1))
ensure_gateway_role-Elected_example =
    ensure_gateway_role-Elected sets elector view client server sets-IsSets nodes nodes-Distinct
      nodes-IsExact
