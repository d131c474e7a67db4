-- ===== src/User.antt =====
-- lab3/xv6-public, programs that run in user space. A text is its bytes up to the NUL.
pub mod Grep
pub mod Ulib
pub mod Printf
pub mod Sh
pub mod Umalloc
mod Tests
