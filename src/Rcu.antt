-- ===== src/Rcu.antt =====
-- src/lrcu.c over an explicit store. Each function is a command; a run of one is what one thread
-- does with no other in between.
pub mod State
pub mod Reader
pub mod Api
pub mod Writer
pub mod Sync
pub mod Worker
pub mod Admin
pub mod Cycle
pub mod Barrier
pub mod Life
pub mod Interleave
