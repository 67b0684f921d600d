-- ===== src/Lib.antt =====
-- A partitioned garbage collector with tri-color marking, in Rust: a model of the library crate, and
-- theorems about its collection, its memory and its weak references.
--
-- The program. A heap owns partitions; a partition owns a chain of nodes, a gray list and possibly an
-- arena. A node is a header with a payload of the user's type behind it. `garbage_collect` marks one
-- partition in bounded steps, cuts the white nodes out of its chain, drops their payloads and gives
-- their memory back. Between bounded steps the user allocates, writes references under a barrier, and
-- protects nodes as roots or in scopes.
--
-- The files, and the code that each is about:
--   Base      tests, lists under native indices, the 32-bit integers of accounts
--   Node      src/node.rs: headers, colors, flags
--   Attrs     src/node.rs: the packed word of a header, by digits (Digits), and as the parts that the
--             other files use (Refines)
--   Gctype    src/gctype.rs: the type table and the layout of nodes
--   Arena     src/arena.rs: bump allocation, the holes of a sweep, the free list; the bytes of the
--             free list after a sweep (Cover), the search in it (FirstFit), the frontier (Rounding),
--             and both ways of allocation (Room)
--   Heap      src/heap.rs, src/partition.rs, src/scope.rs: the records of the state
--   Trace     src/trace.rs: what tracing a node submits
--   Payload   src/trace.rs, src/node.rs: the impls of `GcTrace`, and the references that a value holds
--             (Holds, Once)
--   Traverse  src/trace.rs: `traverse_start` and `traverse`; one turn (Search), the fuel (Ends) and
--             the calls of the callback (Visits)
--   Mark      src/mark_sweep.rs: `mark_reset`, `mark_prepare`, `mark_grays`, `mark`; its children are
--             the frame of marking (Frame), one traced node (Shade), the tri-color invariant
--             (Invariant), the loop (Loop), the start of a cycle (Seed, Prepare), a whole cycle (Cycle)
--   Barrier   src/node.rs and src/heap.rs: `with_write_barrier`, `bind`, `set_root_node`; its children
--             are one shaded node (Greyed), the invariant of a running cycle (Cycle), the user's
--             steps (Write, Root, Alloc, Local), sequences of steps (Steps) and their end (Safe)
--   Weak      src/weak.rs: slots, versions, `downgrade` and `upgrade`
--   Scope     src/scope.rs: scopes, scope stacks, local nodes; clearing (Nesting), what is protected from
--             the opening to the end of a scope (Protect), a node that moves to another scope (Promote)
--   Mem       src/mem.rs: allocation and disposal of nodes, the memory accounts
--   Limits    src/heap.rs: the memory limit and the threshold of automatic collection
--   Partition src/partition.rs: creation of partitions, and their removal in two phases
--   Sweep     src/mark_sweep.rs: `sweep_unlink`, `sweep_drop_payloads`, `sweep_dispose`,
--             `garbage_collect`, `dispose_all_nodes`; its children go from one disposed node to the
--             whole collection, and on to the deprecated `sweep` (Single, Renode, Agrees, InPlace,
--             Deprecated)
--   Lifetime  src/heap.rs and src/partition.rs: creation and drop of the heap, `remove_partition`; its
--             children are the nodes given back (Release) and the dropped heap (Dropped)
--   Links     src/node_link.rs and the loops of src/mark_sweep.rs that relink a chain: chains in memory
--             (Segments), iteration (Walk), `filter_remove_with` (Filter), the walk of `sweep_unlink`
--             (Split) against the list of the Sweep files (Refines), one pass of `sweep_dispose` (Kept)
--   Macros    gc-lite-macros/src/lib.rs: the type table's input (Parse), the table (Table) and what the
--             collector needs of it (Registry); the derived trace function (Derive), attributes
--             (Kinds), its body (Body, Effect) and the items it rejects (Accepts)
--   Tests     a small heap, and the theorems at it
--
-- The state is passed explicitly. Headers are a function from addresses, so that two references to a
-- node see one header, and so are the scopes of `promote_node_to`; the chain of a partition is the
-- list of its addresses from the head, and a vector used as a stack is a list from its top.
-- `payload` gives the references that the type's trace
-- function submits for a payload, which is user code: a write to a payload changes them. What the
-- system allocator answers is an argument. Where the code indexes past a vector it panics; the models
-- read a default there, and the theorems ask for indices in range.
--
-- Fuel. `mark_until` is the loop around `mark`; each call that stops early has blackened 64 nodes, so
-- `garbage_collect` gets as many rounds as the chain has nodes and one.
--
-- The traversal takes a turn per reference out of the nodes that it can come to, and two more; the
-- loops over a chain take a step per node and one more; the parser of the type table takes a step per
-- semicolon.
--
-- The parser of tokens that the macros call is an interface, with the promise that its steps do not
-- lengthen the stream. What `with` names in a derive attribute is an argument. The library types that
-- have an impl of `GcTrace` are the values that they hold, a map or a set in some order.
--
-- Left out: raw memory, the typed handles, the tokens that the macros emit, the poison that debug
-- builds write into dead headers, examples.
mod Base
pub mod Node
pub mod Attrs
pub mod Gctype
pub mod Arena
pub mod Heap
pub mod Trace
pub mod Payload
pub mod Traverse
pub mod Mark
pub mod Barrier
pub mod Weak
pub mod Scope
pub mod Mem
pub mod Sweep
pub mod Links
pub mod Limits
pub mod Macros
pub mod Partition
pub mod Lifetime
mod Tests
