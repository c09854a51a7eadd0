-- ===== src/Std.antt =====
-- What the code uses of the standard library's slices and vectors, and linked lists.
pub mod Vec
pub mod Sort
pub mod Search
pub mod Linked
