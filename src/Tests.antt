-- ===== src/Tests.antt =====
-- The theorems at concrete inputs, and runs of the model.
mod Codecs
mod Stores
mod Nodes
mod Replication
mod Elections
mod Storage
mod Service
mod Clients
mod SkipLists
mod Calls
mod Addresses
mod Agreement
mod Descriptors
mod Timing
mod Scheduling
mod Events
