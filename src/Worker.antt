-- ===== src/Worker.antt =====
-- worker/: the program that runs pods.
pub mod LockFreeQueue
pub mod Chains
pub mod Fifo
pub mod Pushing
pub mod Popping
pub mod Order
pub mod Fork
pub mod Refusal
mod Tests
