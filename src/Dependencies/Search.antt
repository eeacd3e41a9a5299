-- ===== src/Dependencies/Search.antt =====
-- The depth-first search of `wouldCreateCycle`: rounds of its loop, what a search that finds
-- nothing has visited, what a search that finds something has found, and that it ends.
pub mod Rounds
pub mod Nothing
pub mod Something
pub mod Ends
