-- ===== src/Link/Elector/Settled.antt =====
-- What the API server holds after a round of the elector, and after the next one.
use kosmos.Base.{
  filter_map-skipped, filter_map-kept, String, ◌≡◌, refl, sym, ap, ◌∙◌, ◌≢◌, inl, inr, none, some,
  List, [], ◌∷◌, map, arith, eq_iff, ◌==◌, if◌then◌else◌, Option-cases, filter_map, In,
  filter_map-In,
}
use kosmos.Api.Node.{ClusterNode, is_gateway}
use kosmos.Link.Elector.{
  Sets, Elector, Client, add_role, remove_role, modify_node, gen_modify_node, update_nodes,
  ensure_gateway_role,
}
use kosmos.Link.Elector.Roles.{IsSets, IsExact, Elects, elected, elected-Elects}

-- A write: the node of that name is replaced.
abbrev pub put : ClusterNode → List ClusterNode → List ClusterNode
put m nodes = map (λ n. if n.name == m.name then m else n) nodes

-- The calls succeed, and the server holds what was written.
pub record IsServer {S : Type 0} (view : S → List ClusterNode) (client : Client S) : Type 0 where
  pub lists : (s : S) → client.list_nodes s ≡ inr (view s)
  pub gets : (name : String) (s : S) → client.get_cluster name s ≡ none
  pub updates_succeed : (n : ClusterNode) (s : S) → (client.update_node n s).0 ≡ none
  pub updates : (n : ClusterNode) (s : S) → view (client.update_node n s).1 ≡ put n (view s)

-- No two of the nodes have the same name.
abbrev pub Distinct : List ClusterNode → Type 0
Distinct [] = Unit
Distinct (n ∷ nodes) = ((m : ClusterNode) → In m nodes → m.name ≢ n.name) × Distinct nodes

put_each : List ClusterNode → List ClusterNode → List ClusterNode
put_each [] nodes = nodes
put_each (m ∷ ms) nodes = put_each ms (put m nodes)

put_one : List ClusterNode → ClusterNode → ClusterNode
put_one [] n = n
put_one (m ∷ ms) n = put_one ms (if n.name == m.name then m else n)

map-map :
    (f g : ClusterNode → ClusterNode) (ns : List ClusterNode)
    → map f (map g ns) ≡ map (λ n. f (g n)) ns
map-map f g [] = refl
map-map f g (n ∷ ns) = ap (λ r. f (g n) ∷ r) (map-map f g ns)

map-same_values :
    (f g : ClusterNode → ClusterNode) (ns : List ClusterNode)
    → ((n : ClusterNode) → In n ns → f n ≡ g n)
    → map f ns ≡ map g ns
map-same_values f g [] h = refl
map-same_values f g (n ∷ ns) h =
    let first = h n (inl refl) in let rest = map-same_values f g ns (λ m i. h m (inr i)) in cc

map_same : (ns : List ClusterNode) → map (λ n. n) ns ≡ ns
map_same [] = refl
map_same (n ∷ ns) = ap (λ r. n ∷ r) (map_same ns)

put_each-map : (ms ns : List ClusterNode) → put_each ms ns ≡ map (put_one ms) ns
unfolding put_each put_one
put_each-map [] ns = sym (map_same ns)
put_each-map (m ∷ ms) ns =
    put_each-map ms (put m ns) ∙ map-map (put_one ms) (λ n. if n.name == m.name then m else n) ns

put_one-absent :
    (ms : List ClusterNode) (n : ClusterNode)
    → ((m : ClusterNode) → In m ms → m.name ≢ n.name)
    → put_one ms n ≡ n
unfolding put_one
put_one-absent [] n h = refl
put_one-absent (m ∷ ms) n h =
    let differs = h m (inl refl) in
    let rest = put_one-absent ms n (λ k i. h k (inr i)) in
    ground (arith, rest, differs, eq_iff n.name m.name)

module _ {T : Type 0} (sets : Sets T) (e : Elector) where
  modify_node-name : (n m : ClusterNode) → modify_node sets e n ≡ some m → m.name ≡ n.name
  unfolding modify_node add_role remove_role
  modify_node-name n m h = ground arith

  absent :
      (ns : List ClusterNode) (n : ClusterNode)
      → ((m : ClusterNode) → In m ns → m.name ≢ n.name)
      → put_one (gen_modify_node sets e ns) n ≡ n
  unfolding gen_modify_node
  absent ns n far = put_one-absent (filter_map (modify_node sets e) ns) n (λ m i.
      let (k, there, made) = filter_map-In (modify_node sets e) m ns i in
      let differs = far k there in
      let same = modify_node-name k m made in λ q. differs (sym same ∙ q))

  put_one-modified :
      (ns : List ClusterNode) (n : ClusterNode)
      → Distinct ns
      → In n ns
      → put_one (gen_modify_node sets e ns) n ≡ elected sets e n
  unfolding put_one elected gen_modify_node
  put_one-modified [] n d m = absurd m
  put_one-modified (x ∷ ns) n (far, d) (inl same) =
      let others : (m : ClusterNode) → In m ns → m.name ≢ n.name = λ m i. rw same (far m i) in
      elim (Option-cases (modify_node sets e x)) [
        | inl q ↦
            rw (filter_map-skipped (modify_node sets e) x ns q, absent ns n others)
              (ground (arith, same, q))
        | inr (m, q) ↦
            let name = modify_node-name x m q in
            rw (filter_map-kept (modify_node sets e) x m ns q) (
              let rest = absent ns m (λ k i p. far k i (p ∙ name)) in
              ground (arith, rest, eq_iff n.name m.name, q, same, name))
      ]
  put_one-modified (x ∷ ns) n (far, d) (inr m) =
      let rest = put_one-modified ns n d m in
      let differs = far n m in
      elim (Option-cases (modify_node sets e x)) [
        | inl q ↦ rw (filter_map-skipped (modify_node sets e) x ns q) rest
        | inr (k, q) ↦
            let name = modify_node-name x k q in
            rw (filter_map-kept (modify_node sets e) x k ns q)
              (ground (arith, rest, differs, name, eq_iff n.name k.name))
      ]

  modify_node-settled :
      (n : ClusterNode) → IsExact n → IsSets sets → modify_node sets e (elected sets e n) ≡ none
  unfolding modify_node Elects
  modify_node-settled n exact laws =
      let m = elected sets e n in
      let (name, cluster, node, mine, others) = elected-Elects sets laws e n exact in
      let own : m.cluster_name ≡ e.cluster_name → is_gateway m ≡ (m.node_name == e.node_name) =
        λ q. mine (sym cluster ∙ q) ∙ ap (λ name. name == e.node_name) (sym node) in
      ground (arith, own, eq_iff m.cluster_name e.cluster_name)

  gen_modify_node-settled :
      (ns : List ClusterNode)
      → IsSets sets
      → ((n : ClusterNode) → In n ns → IsExact n)
      → gen_modify_node sets e (map (elected sets e) ns) ≡ []
  unfolding gen_modify_node
  gen_modify_node-settled [] laws exact = refl
  gen_modify_node-settled (n ∷ ns) laws exact =
      filter_map-skipped (modify_node sets e) _ _ (modify_node-settled n (exact n (inl refl)) laws)
      ∙ gen_modify_node-settled ns laws (λ m i. exact m (inr i))

  module _ {S : Type 0} (view : S → List ClusterNode) (client : Client S)
      (server : IsServer view client) (laws : IsSets sets) where
    update_nodes-view :
        (ms : List ClusterNode) (s : S)
        → ((update_nodes sets client ms s).0 ≡ none)
          × (view (update_nodes sets client ms s).1 ≡ put_each ms (view s))
    unfolding update_nodes put_each
    update_nodes-view [] s = (refl, refl)
    update_nodes-view (m ∷ ms) s =
        let (ok, rest) = update_nodes-view ms (client.update_node m s).1 in
        rw (server.updates_succeed m s, update_nodes) (ok, rw (sym (server.updates m s)) rest)

    ensure-update :
        (s : S)
        → ensure_gateway_role sets client e s
          ≡ update_nodes sets client (gen_modify_node sets e (view s)) s
    unfolding ensure_gateway_role
    ensure-update s = simp (ensure_gateway_role, server.lists s, server.gets e.cluster_name s)

    -- If the calls succeed, the names of the nodes differ, and a role that reads as the gateway role
    -- is written as it, a round finishes without an error; then each node is what the round makes
    -- of it: of the elector's own cluster exactly the current node is a gateway, and nodes of other
    -- clusters are as they were. The next round changes nothing.
    pub ensure_gateway_role-Elected :
        (s : S)
        → Distinct (view s)
        → ((n : ClusterNode) → In n (view s) → IsExact n)
        → ((ensure_gateway_role sets client e s).0 ≡ none)
          × (view (ensure_gateway_role sets client e s).1 ≡ map (elected sets e) (view s))
          × ((n : ClusterNode) → In n (view s) → Elects e n (elected sets e n))
          × (ensure_gateway_role sets client e (ensure_gateway_role sets client e s).1
              ≡ (none, (ensure_gateway_role sets client e s).1))
    unfolding update_nodes
    ensure_gateway_role-Elected s distinct exact =
        let (ok, written) = update_nodes-view (gen_modify_node sets e (view s)) s in
        let all =
          put_each-map (gen_modify_node sets e (view s)) (view s)
          ∙ map-same_values (put_one (gen_modify_node sets e (view s))) (elected sets e) (view s)
              (λ n i. put_one-modified (view s) n distinct i) in
        let settled = gen_modify_node-settled (view s) laws exact in
        let t = (ensure_gateway_role sets client e s).1 in
        let now : view t ≡ map (elected sets e) (view s) = rw (ensure-update s) (written ∙ all) in
        (
          rw (ensure-update s) ok,
          now,
          λ n i. elected-Elects sets laws e n (exact n i),
          rw (ensure-update t, now, settled) refl,
        )
