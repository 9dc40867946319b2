-- ===== src/Node.antt =====
-- components/sparkplug_node: topics, payload encoding and command decoding.
pub mod Topics
pub mod TopicFit
pub mod Nanopb
pub mod Payloads
pub mod Metrics
pub mod Decode
pub mod NameBuffer
pub mod Examples
