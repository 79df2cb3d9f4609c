-- ===== src/KvServer.antt =====
-- src/raftCore/KvServer.cpp and src/raftCore/include/KvServer.h: the key-value server on top of a
-- Raft node. `State` holds the members and the messages, `Exec` the operations on the store,
-- `Commands` the thread that applies what Raft commits, `Requests` the handlers of the clients'
-- calls.
pub mod State
pub mod Exec
pub mod Commands
pub mod Requests
pub mod View
pub mod Once
pub mod Kept
pub mod Progress
pub mod Replies
