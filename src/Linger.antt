-- ===== src/Linger.antt =====
-- src/linger.rs: timed functions. The children model it from the inside out: the deadline, the signal
-- handler and `pause`, the machine that runs a timed function, and `resume` and `launch`.
pub mod Clock
pub mod Preempt
pub mod Run
pub mod Invariant
pub mod Switch
pub mod Resume
pub mod Lifecycle
