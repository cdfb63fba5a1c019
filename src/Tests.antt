-- ===== src/Tests.antt =====
-- Concrete inputs: runs of the definitions, and the theorems at an example.
mod Sorting
mod Searching
mod Ranges
mod Rounds
mod Sections
mod Worlds
mod Passes
mod LinkedLists
mod Locks
mod Interleavings
mod Lives
mod Waits
mod Clients
mod Programs
