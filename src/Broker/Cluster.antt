-- ===== src/Broker/Cluster.antt =====
-- ramqp-broker/src/cluster: the paging of message bodies to segment files, and the replicated state of a
-- quorum queue.
pub mod Paging
pub mod QueueGroup
