-- ===== src/Xv6.antt =====
-- lab3/xv6-public: parts of the xv6 kernel that the labs change.
pub mod Pipe
pub mod Log
pub mod Proc
pub mod Memory
pub mod Bio
pub mod Kalloc
pub mod File
pub mod Inode
pub mod Sleeplock
mod Tests
