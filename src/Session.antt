-- ===== src/Session.antt =====
-- components/sparkplug_node/sparkplug_session.c: the MQTT session of the node.
pub mod State
pub mod Status
pub mod Timers
pub mod Publish
pub mod Client
pub mod Handler
pub mod Json
pub mod Events
pub mod Api
pub mod Frames
pub mod Invariant
pub mod Opening
pub mod Preservation
pub mod System
pub mod Publications
pub mod Heard
pub mod WifiFrames
pub mod Protocol
pub mod Quiet
pub mod Refinement
pub mod Connection
pub mod Turns
pub mod History
pub mod Waiting
pub mod Endings
pub mod HostState
pub mod Will
pub mod Retrying
pub mod Subscriptions
pub mod Examples
pub mod Scenarios
pub mod Stale
