-- ===== src/Api.antt =====
-- The custom resources of pkg/apis/kosmos/v1alpha1 that cluster link reads and writes.
pub mod Config
pub mod Cluster
pub mod Node
pub mod Kube
