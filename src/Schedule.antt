-- ===== src/Schedule.antt =====
-- pkg/scheduler: the plugins that place a pod on the nodes of the host cluster and on leaf nodes.
pub mod Distribution
pub mod Tests
