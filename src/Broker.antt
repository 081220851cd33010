-- ===== src/Broker.antt =====
-- The broker crate: queue policies, dispatch to consumers, the actors of transient and of
-- durable queues, the store, and the paging of the cluster.
pub mod Policy
pub mod Dispatch
pub mod Queue
pub mod Store
pub mod Durable
pub mod Cluster
