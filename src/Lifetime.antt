-- ===== src/Lifetime.antt =====
-- The heap from its creation to its drop (src/heap.rs), the test for a node of the heap, and the
-- removal of a partition in one call (src/partition.rs, `remove_partition`, which is deprecated).
pub mod Release
pub mod Dropped
use gc_lite.Base.{
  ℕ, zero, suc, ◌+◌, ◌%◌, ◌^◌, Bool, false, List, [], ◌∷◌, ◌++◌, Option, none, some, get_elem?,
  contains, length,
}
use gc_lite.Node.{GcHead, Ptr}
use gc_lite.Gctype.{GcTypeRegistry}
use gc_lite.Heap.{GcPartition, ScopeStack, GcHeap}
use gc_lite.Sweep.{Collected, dispose_all_nodes}
use gc_lite.Partition.{clear_scopes, finalize_partition, dealloc_partition}

-- `GcHeap::new`: no partition, and one scope stack that belongs to none. What lies in memory before,
-- headers and payloads, is an argument: nothing of it is the heap's.
unfoldable pub new_heap : (Ptr → GcHead) → (Ptr → List Ptr) → GcTypeRegistry → GcHeap
new_heap mem payload registry = record {
  node_dtypes = registry;
  partitions = [];
  memory_limit = 0;
  gc_threshold = 0;
  total_memory_used = 0;
  weak_slots = [];
  scope_stacks = record { list = []; partition = none } ∷ [];
  mem = mem;
  payload = payload;
  dbg_living_nodes = [];
}

unfoldable pub heap_contains : GcHeap → Ptr → Bool
heap_contains h node = elim (get_elem? h.partitions (h.mem node).partition_id) [
  | none ↦ false
  | some par ↦ contains par.nodes node
]

-- `for s in stack.list.drain(..) { s.clear() }` for each stack.
unfoldable pub drain_stacks : GcHeap → List ScopeStack → GcHeap × List ScopeStack
unfolding clear_scopes
drain_stacks h [] = (h, [])
drain_stacks h (stack ∷ rest) =
    let later = drain_stacks (clear_scopes h stack.list).0 rest in
    (later.0, record stack { list = [] } ∷ later.1)

-- `std::mem::take(&mut par.nodes)` for each partition.
unfoldable pub chains_of : List GcPartition → List (List Ptr)
chains_of [] = []
chains_of (par ∷ rest) = par.nodes ∷ chains_of rest

unfoldable pub without_nodes : List GcPartition → List GcPartition
without_nodes [] = []
without_nodes (par ∷ rest) = record par { nodes = [] } ∷ without_nodes rest

unfoldable pub dispose_chains : List (List Ptr) → Collected → Collected
unfolding dispose_all_nodes
dispose_chains [] c = c
dispose_chains (nodes ∷ rest) c =
    let r = dispose_all_nodes c.heap nodes in
    dispose_chains rest (record {
      heap = r.heap;
      freed_bytes = c.freed_bytes + r.freed_bytes;
      dropped = c.dropped ++ r.dropped;
    })

-- `Drop for GcHeap`, with the payloads that it drops.
unfoldable pub drop_heap : GcHeap → Collected
unfolding drain_stacks chains_of without_nodes dispose_chains
drop_heap h =
    let r = drain_stacks h h.scope_stacks in
    let h1 = record r.0 { scope_stacks = r.1 } in
    let h2 = record h1 { partitions = without_nodes h1.partitions } in
    dispose_chains (chains_of h1.partitions) (record { heap = h2; freed_bytes = 0; dropped = [] })

-- The heap, the bytes freed, and the payloads dropped.
unfoldable pub remove_partition : ℕ → GcHeap → ℕ → Collected
unfolding finalize_partition dealloc_partition
remove_partition base h pid = elim (finalize_partition h pid) [
  | none ↦ record { heap = h; freed_bytes = 0; dropped = [] }
  | some (g, link, dropped) ↦
      let r = dealloc_partition base g pid link in
      record { heap = r.0; freed_bytes = r.1; dropped = dropped }
]

-- The ids from `i` on, each `as u16`.
unfoldable pub ids_after : ℕ → List GcPartition → List ℕ
ids_after i [] = []
ids_after i (par ∷ rest) = i % 2 ^ 16 ∷ ids_after (suc i) rest

unfoldable pub partition_ids : GcHeap → List ℕ
unfolding ids_after
partition_ids h = ids_after 0 h.partitions
