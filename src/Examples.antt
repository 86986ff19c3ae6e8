-- ===== src/Examples.antt =====
-- The theorems at concrete inputs: the configurations, messages and arguments of the example
-- programs' own kind.
mod Codec
mod Multicast
mod Group
mod Chat
mod Talk
mod Programs
mod Gps
mod Trail
mod Queue
mod Fleet
mod Io
mod Dccl
mod Publishers
mod PubSub
mod Subscribers
mod Hold
mod Mavlink
mod Pipeline
mod Rounds
mod Exits
mod Attribution
mod Unsubscriber
