-- ===== src/Federation.antt =====
-- internal/domain/federation: bundles in fragments over constrained links.
pub mod Models
pub mod Store
pub mod Params
pub mod LinkForm
pub mod Links
pub mod Security
pub mod Peers
pub mod BundleRows
pub mod BundleReads
pub mod Bundles
pub mod Replication
pub mod Carried
pub mod Batches
pub mod Worker
pub mod Exchange
pub mod Intake
pub mod Polling
pub mod Fragments
pub mod Leases
pub mod FragmentRows
pub mod Bridge
pub mod Parts
pub mod Assembled
pub mod Submissions
pub mod Pulls
