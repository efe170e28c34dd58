-- ===== src/TopologyApi.antt =====
-- services/topology/topologyService.ts: each method is the program of its requests. The service is
-- the exported one, whose `baseUrl` is empty.
mod Request
pub mod Lists
pub mod Containers
pub mod Nodes
pub mod Bgp
pub mod Lab
mod Segments
pub mod Deletes
mod Tests
unfoldable pub use Request.*
unfoldable pub use Lists.*
unfoldable pub use Containers.*
unfoldable pub use Nodes.*
unfoldable pub use Bgp.*
unfoldable pub use Lab.*
