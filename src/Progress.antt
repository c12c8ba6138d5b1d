-- ===== src/Progress.antt =====
-- How the persisted state moves: predicates on the state, the graph of phases, and what stays as it was.
pub mod Calls
pub mod Moves
pub mod Phases
pub mod Enrolls
pub mod Graph
pub mod Traces
pub mod Discovery
pub mod Limits
pub mod Start
pub mod Repeat
pub mod Requests
pub mod Armed
pub mod Resumed
pub mod Triggered
