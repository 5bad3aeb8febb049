-- ===== src/Api/Kube.antt =====
-- What is read of the types of Kubernetes. A nil map or slice is `none`.
use kosmos.Base.{String, Option, Slice}
use kosmos.Base.Dict.{Dict}

-- `metav1.LabelSelectorRequirement` and `corev1.NodeSelectorRequirement`.
pub record Requirement : Type 0 where
  pub key : String
  pub operator : String
  pub values : Slice String

pub record LabelSelector : Type 0 where
  pub match_labels : Option (Dict String)
  pub match_expressions : Slice Requirement

pub record Taint : Type 0 where
  pub key : String
  pub value : String
  pub effect : String

pub record Toleration : Type 0 where
  pub key : String
  pub value : String
  pub effect : String

-- A pod. `O` is what the program copies without reading it.
pub record NodeSelectorTerm (O : Type 0) : Type 0 where
  pub match_expressions : Slice Requirement
  pub match_fields : Slice O

pub record NodeAffinity (O : Type 0) : Type 0 where
  pub required_during_scheduling : Option (Slice (NodeSelectorTerm O))
  pub preferred_during_scheduling : Slice O

pub record Affinity (O : Type 0) : Type 0 where
  pub node_affinity : Option (NodeAffinity O)
  pub pod_affinity : Option O
  pub pod_anti_affinity : Option O

pub record VolumeMount (O : Type 0) : Type 0 where
  pub name : String
  pub rest : O

pub record Container (O : Type 0) : Type 0 where
  pub image : String
  pub volume_mounts : Slice (VolumeMount O)
  pub rest : O

-- The pointers of a volume's source: the names of a secret, a config map and a claim, and the name of
-- the secret behind the pointer that three of the sources hold.
pub record Volume (O : Type 0) : Type 0 where
  pub name : String
  pub secret : Option String
  pub ceph_fs : Option (Option String)
  pub cinder : Option (Option String)
  pub rbd : Option (Option String)
  pub config_map : Option String
  pub persistent_volume_claim : Option String
  pub rest : O

pub record PodSpec (O : Type 0) : Type 0 where
  pub volumes : Slice (Volume O)
  pub init_containers : Slice (Container O)
  pub containers : Slice (Container O)
  pub active_deadline_seconds : Option O
  pub node_selector : Option (Dict String)
  pub node_name : String
  pub image_pull_secrets : Slice String
  pub affinity : Option (Affinity O)
  pub scheduler_name : String
  pub tolerations : Slice Toleration
  pub host_aliases : Slice O
  pub topology_spread_constraints : Slice O
  pub rest : O

pub record Pod (O : Type 0) : Type 0 where
  pub name : String
  pub namespace : String
  pub uid : String
  pub resource_version : String
  pub owner_references : Slice O
  pub labels : Option (Dict String)
  pub annotations : Option (Dict String)
  pub spec : PodSpec O
  pub status : Option O
