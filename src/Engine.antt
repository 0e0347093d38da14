-- ===== src/Engine.antt =====
-- The engine that verifies one rule (src/lib/rule_verif_engine.h, src/lib/rule_verif_engine.c).
-- `Store` has its state, `Reset` what removes instances, `Process` what a message does, and `Init`
-- the construction; the other modules prove.
pub mod Store
pub mod Reset
pub mod Process
pub mod Init
pub mod Kept
pub mod Timeouts
pub mod Safe
pub mod SafeInstance
pub mod SafeProcess
pub mod SafeNode
pub mod SafeMessage
pub mod Ids
pub mod Verdicts
pub mod Started
pub mod Stateless
