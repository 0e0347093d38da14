-- ===== src/Tests.antt =====
-- Runs of the definitions, and the theorems at concrete inputs.
mod Fsm
mod Engine
mod Flows
mod Handler
mod Spsc
mod Utils
mod Stateless
mod Map
mod Masks
mod Security
mod Smp
mod Equivalence
mod Input
