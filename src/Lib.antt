-- ===== src/Lib.antt =====
-- Kosmos: several Kubernetes clusters behind one. Cluster link joins the networks of their nodes, the
-- cluster tree shows each member (leaf) cluster as a node of the host cluster, and plugins of the scheduler
-- place pods on host and leaf nodes.
--
-- Cluster link has two sides. The network manager (pkg/clusterlink/network-manager) runs in the control
-- cluster. From the clusters, their nodes and the configurations of the last round it calculates a
-- configuration for every node: VXLAN devices, routes, iptables rules, forwarding entries and neighbour
-- entries. The agent (pkg/clusterlink/agent-manager/network-manager) runs on each node. It compares the
-- configuration with what the kernel has, and deletes and creates what differs. The elector
-- (pkg/clusterlink/elector) makes one node of a cluster its gateway.
--
-- The cluster tree (pkg/clustertree/cluster-manager) keeps the leaf clusters and the nodes that stand for
-- them, decides when a change of a leaf's readiness is reported, makes the pod of a leaf cluster from one of
-- the host cluster (pkg/utils/podutils), and imports services and their endpoints into leaf clusters.
--
--   Base               the shared helpers: Boolean tests, lists, slices (nil or not)
--   Base/Outcomes      a Go function returns or panics
--   Base/Dict          Go's maps
--   Api                pkg/apis/kosmos/v1alpha1: the types that several parts read; Api/Kube is what is
--                      read of the types of Kubernetes
--   Agent/Diff         `compareFunc` and `Diff`; Agent/Diff/Laws and Agent/Diff/Apply are about them
--   Agent/Network      the interface `NetWork` of pkg/clusterlink/network/interface.go, a parameter
--   Agent/Sync         `NetworkManager`: WriteSys, UpdateSync, UpdateFromCRD, UpdateFromChecker
--   Agent/Sync/Kernel  what is relied on of the operations behind `NetWork`, under the conditions on which
--                      the node can carry them out; Write, Keys, Reached, Plan and Converge are about
--                      rounds of UpdateSync, Status and Order about what is reported
--   Link/Net           what is used of Go's package net; parsing and printing are a parameter
--   Link/Vxlan         helpers/network.go: addresses, MACs and attributes of VXLAN devices
--   Link/Filter        helpers/filter.go: selections of clusters and nodes
--   Link/Context       the state that the handlers share, and the chain in which they run
--   Link/Handlers      one file for each group of handlers
--   Link/Manager       ExcludeInvalidItems and CalculateNetworkConfigs
--   Link/Sort          helpers/sort.go: the order of the results; sort.Sort is a parameter
--   Link/Addresses     about the addresses of Link/Vxlan
--   Link/Controller    controller.go: Reconcile, over the client of controller-runtime as a parameter;
--                      Link/Controller/Server and Link/Controller/Stored are about what the API
--                      server then holds
--   Link/Safety        what each handler keeps of the shared state; Link/Safety/Mac,
--                      Link/Safety/Apart and Link/Safety/Conflict are about single handlers,
--                      Link/Safety/Chain is about the whole chain
--   Link/Elector       elector.go and pkg/utils/role: EnsureGateWayRole; Link/Elector/Roles is about one
--                      node, Link/Elector/Settled about what the API server holds
--   Schedule/Distribution   pkg/scheduler/lifted/plugins/leafnodedistribution: the match of policies and
--                      the filter; Match, Lets and Place below it are about them
--   Tree/LeafResources leaf_resource_manager.go: the map of leaf clusters; Found is about the lookups,
--                      Added about what an added cluster makes found
--   Tree/Conditions    leaf_cluster_condition_cache.go; Debounced and Lasting are about runs of calls
--   Tree/Pods          pkg/utils/podutils: the labels; Fit is FitPod and GetUpdatedPod, Convert is
--                      pod_convert.go, and the others are about them
--   Tree/Services      controllers/mcs/serviceimport_controller.go: the data; Import and Reconcile are the
--                      controller, Cleared, Leaf, Returning, Round, Released and Deleted are about it;
--                      Export is serviceexport_controller.go, and Exported, Marking and Marked are about it
--   Agent/Tests, Link/Tests, Schedule/Tests, Tree/Tests   runs on concrete inputs
--
-- State is passed explicitly. A nil pointer that is read and an index out of range are the outcome
-- `panics`. An error that Go returns is a value. A map is an association list, whose order stands for
-- the order in which `range` visits the map. Numbers are natural; a word keeps its wrap-around written
-- out. There is no fuel: every loop is over a list. A method under a lock is one step, and a run is a list of
-- such steps. Reads of `crypto/rand` are numbered, and the time of a call is an argument. The clients of the
-- API servers, the listers and the functions of vendored packages are parameters; what is relied on of
-- them is a record of laws, which a client kept in memory fulfils in the tests.
--
-- Not modelled: the copy of the results that the manager keeps for its log, logging and events, the calls of
-- netlink and iptables behind `NetWork`, the registration of watches, the handlers that only put a key in
-- a queue, the reconcilers of pods, volumes and daemon sets of the cluster tree, the code lifted from
-- Kubernetes and karmada, the command line and the generated clients.
pub mod Base
pub mod Api
pub mod Agent
pub mod Link
pub mod Tree
pub mod Schedule
