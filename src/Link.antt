-- ===== src/Link.antt =====
-- pkg/clusterlink/network-manager: the controller that computes the network configuration of every
-- node from the clusters and their nodes.
pub mod Net
pub mod Vxlan
pub mod Addresses
pub mod Filter
pub mod Context
pub mod Sort
pub mod Handlers
pub mod Manager
pub mod Controller
pub mod Tests
pub mod Safety
pub mod Elector
