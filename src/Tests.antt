-- ===== src/Tests.antt =====
-- Concrete runs of the model, and the theorems at concrete inputs.
mod Sample
mod Pools
mod Timed
mod Agreement
mod Interface
mod Blocks
mod Failures
mod Handler
mod Polling
mod Yielding
mod System
mod Lives
mod Stuck
mod Budgets
