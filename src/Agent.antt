-- ===== src/Agent.antt =====
-- agent/: the loop of the agent, its events and their transport, and the delegation to child agents.
pub mod Tests
pub mod Protocol
pub mod Delegation
pub mod Child
pub mod Spawn
pub mod Run
pub mod Log
pub mod Plan
pub mod Decide
pub mod Act
pub mod Output
pub mod Task
pub mod Transport
pub mod Example
pub mod Envelope
