-- ===== src/Lib.antt =====
-- A verification of the container library in this repository: tree, list and queue structures in C,
-- and the sorted lists in C++ that are built on them.
--
-- The parts and how they interact. rbtree.c (with rbtree.h and rbtree_augmented.h) keeps an
-- intrusive red-black tree of `struct rb_node`s. rblist.cpp uses it for a sorted list whose users
-- supply the comparison and the allocation of nodes; intlist.cpp and strlist.cpp are such users.
-- fifo.h is a bounded queue of pointers in a circular table, dlist.h has circular doubly linked lists,
-- hlist.h the chains of hash tables, slist.h a lock-free stack, and hash.h hash functions;
-- hashtable.cpp is a hash table of byte strings with links from parents to children, and avltree.cpp
-- a tree of ranges of keys. These stand on their own.
--
-- The files.
-- - Base, Base/Tests, Base/Lists: numbers, comparisons, arrays as lists.
-- - Ring: circular storage, the lemmas on slots that fifo.h needs.
-- - Fifo: `fifo_t` and fifo_init, fifo_close, increment, fifo_put, fifo_get, fifo_empty, fifo_full of
--   fifo.h. Fifo/Queue is the bounded queue that a client is promised, Fifo/Inv the invariant,
--   Fifo/Refine the refinement. Unsigned sums wrap at 2^32. `malloc` is a parameter.
-- - RbTree/State: the heap of `rb_node`s, and the accessors of rbtree.h and rbtree_augmented.h.
--   A command is a function from a state to an optional state; `none` is a fault, such as an access
--   through NULL. `__rb_parent_color` is held as its two parts, and RbTree/Word has the packed word.
-- - RbTree/Insert: `__rb_insert` and `rb_insert_color`. The code for the two sides is written once,
--   over a side, since rbtree.c has it twice with left and right exchanged. The loop runs on fuel;
--   the depth of the node plus one is enough, since each round that goes on climbs two levels.
-- - RbTree/Tree: what a heap stands for, a tree with a context, and `fix`, the repair as a function
--   of the tree. RbTree/Rep says when a heap represents a tree; RbTree/Ops, Rotate, RotateInner,
--   Flip, Turn and Loop take the code step by step to `fix`; RbTree/Balance and Order are about
--   `fix` alone; RbTree/Insertion joins them with `rb_link_node`.
-- - RbTree/Erase: `rb_erase_augmented` with the callbacks of `rb_erase`, and `__rb_erase_color`, over
--   a side as in RbTree/Insert. Its loop climbs one level a round, so the depth of the place is
--   enough fuel. RbTree/Erase/Sides, Raise, RaiseInner and Lower are about the writes of the cases,
--   Balance about the trees they leave, and Settle, Round and Loop put the rounds together. Vacate
--   has case 1 of `rb_erase_augmented`, Segment and Seek the way down to the successor, Successor
--   what happens in its place, and Erasure the whole. The height of the tree is enough fuel.
-- - RbTree/Replace: `rb_replace_node`.
-- - RbTree/Walk: `rb_first`, `rb_last`, `rb_next` and `rb_prev`, with their laws in
--   RbTree/Walk/Laws, Place and Order. Their loops run on fuel; more than the height of the tree
--   is enough.
-- - RbList: rblist.cpp and rblist.h. `node_cmp`, what `node_new` returns and `node_delete` are
--   parameters. RbList/Search, Add, Remove, Entry and Delete have the theorems, RbTree/Locate finds
--   the place of a node of the order in the tree, and RbList/Ordered has the list as a set of keys.
--   Fuel above the number of the nodes is enough.
-- - IntList: intlist.cpp and intlist.h. IntList/Compare is about `intlist__node_cmp`, IntList/Calls
--   has the calls of a client and the set of integers that it is promised, IntList/Set, Step and
--   Refine the refinement. `malloc` is a parameter.
-- - Dlist: dlist.h, on a heap of `next` and `prev` fields and the addresses that are nodes; an access
--   to another address is a fault. Dlist/Seg says when the heap has a list, and what else may have
--   changed; Dlist/Link, Add, Remove, Move, Splice, Join and Cut are about the operations, Walk and
--   Drain about the loops. The loops run on fuel; more than the number of entries is enough.
-- - Hlist: hlist.h, on the heap of Dlist, where `next` holds the pointers at the addresses of heads
--   and nodes and `prev` the `pprev`s. Hlist/Chain says when the heap has a chain; Hlist/Ops, Move
--   and Walk are about the operations.
-- - Hash: hash.h for 64-bit longs, with the wrap-around of machine words written out.
-- - Slist: slist.h, which stack.h renames, as steps of any number of threads that interleave: each
--   access to memory is one step, and so is an `xchg`. A `cmpxchg` of cmpxchg.h is one step in the
--   build with InterlockedCompareExchange, and two in the build for GNU C, whose instruction has no
--   lock prefix, so that another thread can write in between. Slist/Inv has the invariant and the
--   stack that the calls are to act on, Slist/Steps and Refine the refinement, and Slist/Alone the
--   progress of a thread that runs alone, all for the first build; Slist/Tests has a run of the
--   second that loses a node.
-- - Avl: avltree.cpp without its files: the reads in Avl, with their theorems in Avl/Ends and
--   Avl/Search; the rotations and the insertion in Avl/Change, the removal in Avl/Remove. Avl/Shape
--   has trees with their heights, Rotate, Insert, Hang, Grow and Place are about the insertion. A height is
--   held plus one, so that NULL has 0. Fuel above the height of the tree is enough.
-- - HashTable: hashtable.cpp and hashtable.h. An entry has three list entries, at the offsets 0, 16
--   and 32, which are on three heaps of Dlist. HashTable has the calls on one id, HashTable/Enum
--   those on all entries, HashTable/Children those on parents and children. Rep says which entries a
--   table has and what it holds, an association list; Frame and Links are about the writes to the
--   lists, Lookup, Remove and Insert about the steps of the calls, Refine, Visit, Loop, Clear and
--   Start about the calls, and Ring, Family and Leave about the children. What `malloc` returns and the routine of
--   an enumeration are parameters. Fuel above the number of entries is enough.
--
-- Not modelled: the augmentation callbacks of rbtree_augmented.h, which rbtree.c calls with functions
-- that do nothing; LoadAvlTree and SaveAvlTree; strlist.cpp; the assembly of cmpxchg.h;
-- htable_burket of hlist.h and the typed loop macros of dlist.h, hlist.h and slist.h; the copies of
-- Linux sources that CMakeLists.txt does not build, btree.c, kfifo.c and klist.c; input and output;
-- and the sources that do not compile, rfifo.c and segmentree.cpp.
pub mod Base
pub mod Ring
pub mod Fifo
pub mod RbTree
pub mod RbList
pub mod IntList
pub mod Dlist
pub mod Hlist
pub mod Hash
pub mod Slist
pub mod Avl
pub mod HashTable
