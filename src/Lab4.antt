-- ===== src/Lab4.antt =====
-- lab4/xv6-public: the kernel of lab 4, where sbrk only moves the size and a page fault allocates.
pub mod Vm
pub mod Unmap
pub mod Copy
pub mod Lazy
mod Tests
