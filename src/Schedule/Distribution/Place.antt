-- ===== src/Schedule/Distribution/Place.antt =====
-- On which nodes the plugin lets a pod.
use kosmos.Base.{
  String, ◌≡◌, refl, ap, ◌∙◌, inl, inr, false, some, List, [], ◌∷◌, ◌++◌, ◌==◌, if◌then◌else◌,
  nat_beq, Bool-cases, find,
}
use kosmos.Schedule.Distribution.{
  DistributionPolicy, ClusterDistributionPolicy, PolicyTerm, Pod, Node, success, Matched, unmatched,
  none_scope, Handle, match_distribution_policy, match_cluster_distribution_policy, last_match,
  wanted, place, matched, get_distribution, filter_node, filter_plugin, is_daemon_set_pod,
}
use kosmos.Schedule.Distribution.Lets.{Lets}

last_match-append :
    {P : Type 0} (f : P → Matched) (ps : List P) (p : P) (m : Matched)
    → last_match f (ps ++ p ∷ []) m ≡ f p
unfolding last_match
last_match-append f [] p m = refl
last_match-append f (q ∷ ps) p m = last_match-append f ps p (f q)

-- The policies that the handle returns for the pod.
pub record Lists (handle : Handle) (pod : Pod) (dps : List DistributionPolicy)
    (cdps : List ClusterDistributionPolicy) : Type 0 where
  pub namespaced : handle.distribution_policies pod.namespace ≡ inr dps
  pub clustered : handle.cluster_distribution_policies ≡ inr cdps

filter_plugin-place :
    (handle : Handle) (pod : Pod) (node : Node) (dps : List DistributionPolicy)
    (cdps : List ClusterDistributionPolicy)
    → Lists handle pod dps cdps
    → is_daemon_set_pod pod ≡ false
    → filter_plugin handle pod (some node)
      ≡ place handle node (wanted (matched handle pod dps cdps))
unfolding filter_plugin filter_node get_distribution
filter_plugin-place handle pod node dps cdps lists other = simp (
  filter_plugin, other, if◌then◌else◌, filter_node, get_distribution, lists.namespaced,
  lists.clustered,
)

-- Only the match of the last policy of the namespace is kept: where that one does not match the pod,
-- and the cluster has no policies, the plugin lets the pod on every node, whatever the other
-- policies of the namespace ask for.
pub filter_plugin-forgets :
    (handle : Handle) (pod : Pod) (node : Node) (dps : List DistributionPolicy)
    (dp : DistributionPolicy)
    → Lists handle pod (dps ++ dp ∷ []) []
    → match_distribution_policy pod dp ≡ unmatched
    → filter_plugin handle pod (some node) ≡ success
unfolding filter_plugin place wanted matched last_match
filter_plugin-forgets handle pod node dps dp lists none_hit =
    elim (Bool-cases (is_daemon_set_pod pod)) [
      | inl e ↦ rw (e, if◌then◌else◌) refl
      | inr e ↦ filter_plugin-place handle pod node (dps ++ dp ∷ []) [] lists e ∙ free
    ]
  where
    kept : last_match (match_distribution_policy pod) (dps ++ dp ∷ []) unmatched ≡ unmatched
    kept = last_match-append (match_distribution_policy pod) dps dp unmatched ∙ none_hit

    free : place handle node (wanted (matched handle pod (dps ++ dp ∷ []) [])) ≡ success
    free =
        ap
          (λ (m : Matched). place handle node (
            wanted (
              if nat_beq m.priority none_scope
              then last_match (match_cluster_distribution_policy pod) [] m
              else m)))
          kept

-- The first term of that name.
abbrev pub FirstTerm : String → PolicyTerm → List PolicyTerm → Type 0
FirstTerm name policy terms = find (λ (p : PolicyTerm). name == p.name) terms ≡ some policy
