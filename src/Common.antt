-- ===== src/Common.antt =====
-- src/common/include/util.hpp, src/raftCore/include/ApplyMsg.h and src/raftCore/Persisiter.cpp:
-- what the Raft node and the key-value server share.
pub mod Codec
pub mod Op
pub mod Assoc
pub mod LockQueue
pub mod Persister
