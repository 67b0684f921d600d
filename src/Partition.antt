-- ===== src/Partition.antt =====
-- Partitions as a whole (src/partition.rs): creation, and removal in two phases. The address of a new
-- arena is what the system allocator answered.
pub mod Removal
use gc_lite.Base.{
  ℕ, ◌+◌, ◌-◌, ◌%◌, ◌^◌, Bool, true, false, List, [], ◌∷◌, ◌++◌, Option, none, some, ltb, leb, ◌==◌,
  if◌then◌else◌, length,
}
use gc_lite.Node.{Ptr}
use gc_lite.Arena.{GcArena, new_arena}
use gc_lite.Heap.{GcPartition, GcScopeState, ScopeStack, GcHeap, partition_at, modify_partition}
use gc_lite.Mem.{clear_weak, forget, gross_size, drop_payload}
use gc_lite.Scope.{clear}
use gc_lite.Sweep.{drop_pass}

abbrev pub arena_of : (base capacity : ℕ) → Option GcArena
arena_of base capacity = if ltb 0 capacity then some (new_arena base capacity) else none

-- `GcPartition::new`
unfoldable pub new_partition : (base capacity max_alloc : ℕ) → GcPartition
new_partition base capacity max_alloc = record {
  nodes = [];
  gray_list = [];
  marking = false;
  memory_used = 0;
  arena = arena_of base capacity;
  arena_capacity = capacity;
  arena_max_alloc = if ltb 0 capacity then max_alloc else 0;
}

-- The id is the number of partitions `as u16`.
unfoldable pub create_partition : ℕ → GcHeap → (capacity max_alloc : ℕ) → GcHeap × ℕ
unfolding new_partition
create_partition base h capacity max_alloc = (
  record h { partitions = h.partitions ++ new_partition base capacity max_alloc ∷ [] },
  length h.partitions % 2 ^ 16,
)

-- `for s in &stack.list { s.clear() }`
unfoldable pub clear_scopes : GcHeap → List GcScopeState → GcHeap × List GcScopeState
unfolding clear
clear_scopes h [] = (h, [])
clear_scopes h (s ∷ rest) =
    let r = clear h s in let later = clear_scopes r.0 rest in (later.0, r.1 ∷ later.1)

abbrev pub belongs : ℕ → ScopeStack → Bool
belongs pid stack = elim stack.partition [ none ↦ false | some p ↦ p == pid ]

unfoldable pub clear_stacks : ℕ → GcHeap → List ScopeStack → GcHeap × List ScopeStack
unfolding clear_scopes
clear_stacks pid h [] = (h, [])
clear_stacks pid h (stack ∷ rest) =
    let r = clear_scopes h stack.list in
    let mine = belongs pid stack in
    let later = clear_stacks pid (if mine then r.0 else h) rest in
    (later.0, (if mine then record stack { list = r.1 } else stack) ∷ later.1)

unfoldable pub clear_weaks : List Ptr → GcHeap → GcHeap
clear_weaks [] h = h
clear_weaks (n ∷ rest) h = clear_weaks rest (clear_weak h n)

unfoldable pub finalize_partition_prepare : GcHeap → ℕ → Option (GcHeap × List Ptr)
unfolding clear_stacks clear_weaks
finalize_partition_prepare h pid =
    if leb (length h.partitions) pid
    then none
    else let r = clear_stacks pid h h.scope_stacks in
      let link = (partition_at h pid).nodes in
      some (clear_weaks link (record r.0 { scope_stacks = r.1 }), link)

-- The payloads that one pass drops, in order.
unfoldable pub finalize_pass : GcHeap → ℕ → List Ptr → List Ptr
unfolding drop_payload
finalize_pass h pass [] = []
finalize_pass h pass (n ∷ rest) =
    let later = finalize_pass h pass rest in
    if drop_pass h n == pass then drop_payload h n ++ later else later

unfoldable pub finalize_passes : GcHeap → List ℕ → List Ptr → List Ptr
unfolding finalize_pass
finalize_passes h [] link = []
finalize_passes h (pass ∷ passes) link = finalize_pass h pass link ++ finalize_passes h passes link

-- The heap, the chain, and the payloads dropped, in order.
unfoldable pub finalize_partition : GcHeap → ℕ → Option (GcHeap × List Ptr × List Ptr)
unfolding finalize_partition_prepare finalize_passes
finalize_partition h pid = elim (finalize_partition_prepare h pid) [
  | none ↦ none
  | some (g, link) ↦ some (g, link, finalize_passes g g.node_dtypes.drop_passes link)
]

-- The loop of `dealloc_partition`.
unfoldable pub dealloc_nodes : List Ptr → GcHeap → ℕ → GcHeap × ℕ
dealloc_nodes [] h freed_bytes = (h, freed_bytes)
dealloc_nodes (n ∷ rest) h freed_bytes =
    dealloc_nodes rest (forget (clear_weak h n) n) (freed_bytes + gross_size h n)

-- The fresh state, with the arena's size of before.
abbrev pub reset_partition : ℕ → GcPartition → GcPartition
reset_partition base par = record par {
  arena = arena_of base par.arena_capacity;
  memory_used = 0;
  nodes = [];
  gray_list = [];
  marking = false;
}

unfoldable pub dealloc_partition : ℕ → GcHeap → ℕ → List Ptr → GcHeap × ℕ
unfolding dealloc_nodes
dealloc_partition base h pid link =
    let partition_mem = (partition_at h pid).memory_used in
    let r = dealloc_nodes link h 0 in
    let h1 = record r.0 { total_memory_used = r.0.total_memory_used - partition_mem } in
    (modify_partition h1 pid (reset_partition base), r.1)
