-- ===== src/Raft.antt =====
-- src/raftCore/raft.cpp and src/raftCore/include/raft.h: the Raft node. `State` holds the members
-- and the messages, `Log` the index functions; the other children hold the member functions by
-- topic, and the modules below each prove what it guarantees.
pub mod State
pub mod Log
pub mod Inv
pub mod Persist
pub mod Vote
pub mod Append
pub mod Leader
pub mod Snapshot
pub mod Apply
pub mod Node
pub mod Agree
