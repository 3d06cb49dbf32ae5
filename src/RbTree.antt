-- ===== src/RbTree.antt =====
-- The red-black tree of rbtree.c, rbtree.h and rbtree_augmented.h, on a heap of nodes.
pub mod State
pub mod Word
pub mod Insert
pub mod Erase
pub mod Tree
pub mod Rep
pub mod Ops
pub mod Rotate
pub mod RotateInner
pub mod Flip
pub mod Turn
pub mod Loop
pub mod Balance
pub mod Order
pub mod Insertion
pub mod Replace
pub mod Walk
pub mod Locate
mod Tests
