-- ===== src/Tree.antt =====
-- pkg/clustertree: the leaf clusters as nodes of the host cluster.
pub mod LeafResources
pub mod Conditions
pub mod Pods
pub mod Services
pub mod Tests
