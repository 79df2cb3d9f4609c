-- ===== src/Lib.antt =====
-- A key-value store replicated by Raft.
--
-- A client's command reaches the key-value server of a node (src/raftCore/KvServer.cpp), which hands
-- it to the node's Raft object (src/raftCore/raft.cpp). The leader appends it to its log and sends
-- the log to the other nodes; once a majority has the entry, each node's applier puts it into the
-- channel to its key-value server, which applies it to the store and wakes the client's handler.
-- Raft's term, vote and log, and the server's snapshots, lie in two files of the persister
-- (src/raftCore/Persisiter.cpp).
--
-- Modules, and the code that they are about:
--   Base: C++ tests, vectors, byte strings, and calls that may not return (`Outcome`: `myAssert` of
--     src/common/util.cpp, accesses out of range, deleted objects, exceptions that nothing catches).
--   Common: `Op` and `LockQueue` of src/common/include/util.hpp, src/raftCore/include/ApplyMsg.h,
--     the persister, association lists for the maps, and `Codec`, the interface of the serialisation
--     libraries.
--   Raft: src/raftCore/raft.cpp, whose member functions are functions from the node's members to
--     the new members and the results. Raft/State holds the members and messages, Raft/Log the
--     functions on indices (getLastLogIndex is `last_log_index`, and so on), Raft/Persist
--     persistData, readPersist and init, Raft/Vote requestVoteImpl, doElection and sendRequestVote,
--     Raft/Append appendEntriesimpl, Raft/Leader start, doHeartBeat, sendAppendEntries and
--     leaderUpdateCommitIndex, Raft/Snapshot snapshot, installSnapshotImpl and leaderSendSnapshot,
--     Raft/Apply getApplyLogs and applierTicker. Raft/Node is a node over time: calls in any order,
--     and crashes that lose all but the disk; Raft/Node/Ranges is about a leader's next indices.
--     Raft/Inv is the invariant. The modules below these
--     hold the proofs.
--   KvServer: src/raftCore/KvServer.cpp. KvServer/State holds the members and the interface of the
--     skip list (src/skipList/include/skipList.h), which KvServer/Kept fills with the skip list's own
--     operations, KvServer/Exec the operations on the store,
--     KvServer/Commands the thread that applies commands, KvServer/Requests the clients' handlers;
--     KvServer/View is the abstract service, KvServer/Progress and KvServer/Replies the proofs.
--   Clerk: src/raftClerk/clerk.cpp, the client that asks one server after the other. Its loop takes the
--     number of attempts; Clerk/Retry shows when as many as there are servers are enough.
--   FdManager: src/fiber/fd_manager.cpp, the contexts of file descriptors.
--   SkipList: src/skipList/include/skipList.h, nodes and pointers on a heap. SkipList/Search is the
--     search, SkipList/Change the insertion and deletion; SkipList/Gap to SkipList/Insert show what an
--     insertion does, SkipList/Lookup what is found after it, SkipList/Unlink to SkipList/Deleted are
--     about a deletion, SkipList/Cleared about the keys after a deletion and after insertSetElement,
--     and SkipList/Dump, Dumped and Loaded are about saving and loading. Each `while` of the search takes a
--     number of rounds; more than there are nodes are enough.
--   Timers: src/fiber/timer.cpp; Timers/Order is the order of the set, Timers/Due and Timers/Fire the
--     parts of listExpiredCb, Timers/Steps the calls in any order.
--   Fibers, Scheduler, IoManager: src/fiber/fiber.cpp, scheduler.cpp and io_manager.cpp. The scheduler
--     takes tasks from one queue; Scheduler/Workers are its threads taking turns. The I/O manager is a
--     scheduler with timers, whose idle fiber waits for events; IoManager/Steps are its calls in any
--     order. What runs between two switches of a fiber's context is an argument.
--   Rpc: src/rpc. Rpc/Channel is the client's end (mprpcchannel.cpp) and a peer's call
--     (src/raftCore/raftRpcUtil.cpp), Rpc/Provider the server's (rpcprovider.cpp); Rpc/Frame and
--     Rpc/Call are about a request on its way from one to the other. Rpc/Config is the file of
--     addresses (mprpcconfig.cpp), as the lines that fgets brings.
--   Tests: codecs, a store and concrete states that meet the hypotheses of the theorems.
--
-- Each member function that holds the object's mutex is one step. A function that calls another
-- node, or waits, is cut there: what the call brings is an argument of the part behind it. Threads
-- that a function starts are in its result. Times and the counters that threads share are arguments.
-- A loop over a vector is recursion on the list or on the number of rounds that the code computes
-- before it starts (`commitIndex_ - lastApplied_` rounds of the applier, `prev + 1 - snapshot` rounds
-- of the search for a hint), so no fuel is guessed; only the client's endless loop, the walks of
-- the skip list and the scheduler's endless loop take a number of rounds.
--
-- The times of timers and the counters of the scheduler and the I/O manager are 64-bit words, with
-- their wrap-around. Indices, terms and request numbers are natural numbers: they start at 0 and only grow, and the
-- code's -1 and -100 are `none`. Wrap-around of `int` is not modelled. Boost archives and Protocol
-- Buffers are codecs whose law is that decoding an encoded value gives it back.
--
-- Steps that are coarser than the code: applierTicker releases the mutex before it pushes, and
-- FdManager::get takes its write lock after it has released the read lock, each one step here; a
-- file that is written holds the old or the new contents, never a part; and a line of the
-- configuration file is whole, without the buffer of 512 bytes.
--
-- Not modelled: the sleeping of the tickers, the set-up of the RPC server, the
-- hooked system calls (src/fiber/hook.cpp), printing, and the set-up of threads.
pub mod Base
pub mod Common
pub mod Raft
pub mod KvServer
pub mod Clerk
pub mod FdManager
pub mod SkipList
pub mod Timers
pub mod Fibers
pub mod Scheduler
pub mod IoManager
pub mod Rpc
mod Tests
