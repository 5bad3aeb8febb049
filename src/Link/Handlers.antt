-- ===== src/Link/Handlers.antt =====
-- pkg/clusterlink/network-manager/handlers: one module for each handler, or for two that do alike.
pub mod InitNodes
pub mod Vxlan
pub mod Routes
pub mod MacCache
pub mod HostNetwork
