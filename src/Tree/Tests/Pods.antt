-- ===== src/Tree/Tests/Pods.antt =====
-- A pod with an ignored label; the encoding of one map is known.
use kosmos.Base.{
  String, ◌≡◌, refl, sym, subst, inr, true, false, none, some, List, [], ◌∷◌, arith, eq_iff,
  is_some, In, Slice, returns, panics, Returns,
}
use kosmos.Base.Dict
use kosmos.Base.Dict.{Dict}
use kosmos.Api.Kube.{Pod, Container}
use kosmos.Tree.LeafResources.{all_, NodeSelector}
use kosmos.Tree.Pods.{
  Json, entries, text_at, trip, trip_all, fit_labels, recover_labels, kosmos_pod_label,
  kosmos_tripped_labels,
}
use kosmos.Tree.Pods.Labels.{Keeps}
use kosmos.Tree.Pods.Fit.{is_party, fit_pod, get_updated_pod}
use kosmos.Tree.Pods.Recover.{fit_pod-Recovers}
use kosmos.Tree.Pods.Fitted.{Fitted, fit_pod-Fitted}
use kosmos.Tree.Pods.Updated.{Updated, get_updated_pod-Updated, get_updated_pod-panics}
use kosmos.Tree.Pods.Convert.{Converters, Policy, add, convert_pod}
use kosmos.Tree.Pods.Convert.Again.{convert_pod-again}

abbrev tripped : Dict String
tripped = ("team", "x") ∷ []

abbrev json : Json String
json = record {
  marshal_labels = λ m. some "t";
  unmarshal_labels = λ s. some tripped;
  unmarshal_selection = λ s. none;
}

abbrev ignored : Slice String
ignored = some ("team" ∷ [])

abbrev selector : NodeSelector
selector = record { node_name = ""; label_selector = none }

abbrev container : String → Container String
container image = record { image = image; volume_mounts = none; rest = "" }

abbrev pod_of : List (Container String) → Pod String
pod_of containers = record {
  name = "web";
  namespace = "ns";
  uid = "1";
  resource_version = "2";
  owner_references = none;
  labels = some tripped;
  annotations = some [];
  spec = record {
    volumes = none;
    init_containers = none;
    containers = some containers;
    active_deadline_seconds = none;
    node_selector = none;
    node_name = "kosmos-a";
    image_pull_secrets = none;
    affinity = none;
    scheduler_name = "kosmos-scheduler";
    tolerations = none;
    host_aliases = none;
    topology_spread_constraints = none;
    rest = "";
  };
  status = some "running";
}

abbrev pod : Pod String
pod = pod_of (container "a:1" ∷ [])

keeps :
    (m : Dict String)
    → (fit_labels (Dict.insert kosmos_pod_label "true" (entries pod.labels)) ignored).1 ≡ some m
    → Keeps json m
unfolding fit_labels trip_all trip text_at entries Dict.insert Dict.lookup Dict.erase
keeps m e =
    let same : tripped ≡ m = (let q : some tripped ≡ some m = e in cc) in
    (
      "t",
      refl,
      λ q. let h : false ≡ true = (eq_iff "t" "").1 q in cc,
      (tripped, refl, λ entry. (λ i. subst (In entry) same i, λ i. subst (In entry) (sym same) i)),
    )

fresh : text_at kosmos_tripped_labels (entries pod.annotations) ≡ ""
unfolding text_at entries Dict.lookup
fresh = refl

no_party : is_party all_ ≡ true → is_some selector.label_selector ≡ true
unfolding is_party
no_party h = cc

fit_pod-Recovers_example :
    Returns
      (λ fitted.
        (k : String)
        → Dict.lookup k (recover_labels json (entries fitted.labels) fitted.annotations)
          ≡ Dict.lookup k (Dict.insert kosmos_pod_label "true" (entries pod.labels)))
      (fit_pod json pod ignored all_ selector)
fit_pod-Recovers_example = fit_pod-Recovers json pod ignored all_ selector keeps fresh no_party

fit_pod-Fitted_example :
    Returns (Fitted json pod ignored all_) (fit_pod json pod ignored all_ selector)
fit_pod-Fitted_example = fit_pod-Fitted json pod ignored all_ selector no_party

get_updated_pod-Updated_example :
    Returns
      (Updated json (pod_of (container "a:2" ∷ [])) ignored)
      (get_updated_pod json pod (pod_of (container "a:2" ∷ [])) ignored all_ selector)
get_updated_pod-Updated_example =
    get_updated_pod-Updated json pod (pod_of (container "a:2" ∷ [])) ignored all_ selector refl refl
      no_party

get_updated_pod-panics_example : get_updated_pod json pod (pod_of []) ignored all_ selector ≡ panics
get_updated_pod-panics_example =
    get_updated_pod-panics json pod (pod_of []) ignored all_ selector (inr (omega arith))

abbrev host_aliases : Converters String
host_aliases = record {
  scheduler_name_converter = none;
  node_name_converter = none;
  node_selector_converter = none;
  toleration_converter = none;
  affinity_converter = none;
  topology_spread_constraints_converter = none;
  host_aliases_converter = some (record { convert_type = add; value = some ("h" ∷ []) });
}

abbrev policies : List (Policy String)
policies = record { name = "p"; converters = some host_aliases } ∷ []

convert_pod-again_example :
    Returns (λ q. convert_pod q policies [] ≡ returns q) (convert_pod pod policies [])
convert_pod-again_example = convert_pod-again pod policies [] refl
