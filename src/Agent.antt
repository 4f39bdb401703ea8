-- ===== src/Agent.antt =====
-- AtlasAgent/src: the parts of the agent that every flavor shares, and the loop of the system agent.
pub mod PollingDelay
pub mod Terminator
pub mod Loop
pub mod Container
pub mod Options
