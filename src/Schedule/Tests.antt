-- ===== src/Schedule/Tests.antt =====
-- A pod and two policies of its namespace.
use kosmos.Base.{String, ◌≡◌, refl, inr, false, none, some, List, [], ◌∷◌}
use kosmos.Schedule.Distribution.{
  ResourceSelector, AdvancedTerm, leaf_node, PolicyTerm, DistributionPolicy,
  ClusterDistributionPolicy, Pod, Node, Handle, success, filter_plugin, place,
  match_distribution_policy, match_selectors, match_selector, consider, hits_labels, hits_prefix,
  hits_name, unmatched, is_leaf, allow, unschedulable_and_unresolvable,
}
use kosmos.Schedule.Distribution.Lets.{Lets}
use kosmos.Schedule.Distribution.Place.{Lists, filter_plugin-forgets}

abbrev by_name : String → ResourceSelector
by_name name = record { policy_name = "p"; name = name; name_prefix = ""; label_selector = none }

abbrev nothing : AdvancedTerm
nothing = record { node_name = ""; node_selector = none; tolerations = [] }

abbrev leaf_term : PolicyTerm
leaf_term = record { name = "p"; node_type = leaf_node; advanced_term = nothing }

abbrev policy : String → DistributionPolicy
policy name = record {
  namespace = "ns";
  distribution_spec = record {
    resource_selectors = by_name name ∷ [];
    policy_terms = leaf_term ∷ [];
  };
}

abbrev cluster_policy : ClusterDistributionPolicy
cluster_policy = record { distribution_spec = (policy "web").distribution_spec }

abbrev pod : Pod
pod = record { name = "web"; namespace = "ns"; labels = none; owner_kinds = [] }

abbrev host : Node
host = record { name = "h"; labels = none; taints = [] }

abbrev handle : List DistributionPolicy → Handle
handle dps = record {
  distribution_policies = λ ns. inr dps;
  cluster_distribution_policies = inr [];
  matches = λ s l. false;
}

lists : (dps : List DistributionPolicy) → Lists (handle dps) pod dps []
lists dps = record { namespaced = refl; clustered = refl }

misses : match_distribution_policy pod (policy "db") ≡ unmatched
unfolding match_distribution_policy match_selectors match_selector consider hits_labels hits_prefix
    hits_name
misses = refl

-- The policy of "web" alone keeps the pod off the host; with that of "db" after it, it does not.
filter_plugin-forgets_example :
    filter_plugin (handle (policy "web" ∷ policy "db" ∷ [])) pod (some host) ≡ success
filter_plugin-forgets_example =
    filter_plugin-forgets (handle (policy "web" ∷ policy "db" ∷ [])) pod host (policy "web" ∷ [])
      (policy "db") (lists (policy "web" ∷ policy "db" ∷ [])) misses

off_the_host : place (handle []) host (leaf_node, nothing) ≡ unschedulable_and_unresolvable
unfolding place is_leaf allow
off_the_host = refl
