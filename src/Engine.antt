-- ===== src/Engine.antt =====
-- include/yijinjing/paged/PageEngine.cpp and PageServiceTask.cpp: clients and their blocks, a round
-- of the thread that serves the blocks, and the tasks. The engine's mutex makes each of these
-- operations one step; the logger is not modelled.
pub mod State
pub mod Pages
pub mod Counts
pub mod Users
pub mod Exclusive
pub mod Clients
pub mod Service
pub mod Steps
pub mod Restore
pub mod Blocks
pub mod Answers
pub mod Rounds
pub mod Unknown
pub mod Life
