-- ===== src/NodeSetSync.antt =====
-- internal/controller/nodeset/nodeset_sync.go: the reconciliation of a NodeSet's pods, in modules
-- for cordoning and draining, for choosing pods, for scaling, and for a whole reconcile.
pub mod Fresh
pub mod Cordon
pub mod Scale
pub mod Choose
pub mod Sync
pub mod Shared
pub mod Drift
pub mod Taint
pub mod DaemonMode
pub mod Reconcile
mod Examples
mod Runs
