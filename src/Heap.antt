-- ===== src/Heap.antt =====
-- The heap and what it owns (src/heap.rs, src/partition.rs, src/scope.rs): the records, and how
-- the operations read and write a node's header and a partition.
use gc_lite.Base.{ℕ, Bool, false, List, [], ◌∷◌, Option, none, get_or, modify, update}
use gc_lite.Node.{GcTriColor, GcHead, Ptr}
use gc_lite.Gctype.{GcTypeRegistry}
use gc_lite.Arena.{GcArena}

-- `nodes` is the chain from its head; `gray_list` is a vector used as a stack, its top first.
pub record GcPartition : Type 0 where
  pub nodes : List Ptr
  pub gray_list : List Ptr
  pub marking : Bool
  pub memory_used : ℕ
  pub arena : Option GcArena
  pub arena_capacity : ℕ
  pub arena_max_alloc : ℕ

-- `cache` is a vector, in order.
pub record GcScopeState : Type 0 where
  pub partition_id : ℕ
  pub stack_id : ℕ
  pub depth : ℕ
  pub cache : Option (List Ptr)

-- The sequence of scopes, the innermost first.
pub record ScopeStack : Type 0 where
  pub list : List GcScopeState
  pub partition : Option ℕ

-- `mem` is the headers in memory, by address; `payload` is the nodes that the type's trace function
-- submits for the payload at an address, in order.
pub record GcHeap : Type 0 where
  pub node_dtypes : GcTypeRegistry
  pub partitions : List GcPartition
  pub memory_limit : ℕ
  pub gc_threshold : ℕ
  pub total_memory_used : ℕ
  pub weak_slots : List (ℕ × Option Ptr)
  pub scope_stacks : List ScopeStack
  pub mem : Ptr → GcHead
  pub payload : Ptr → List Ptr
  pub dbg_living_nodes : List Ptr

-- What an index past the vector would read: the program panics there.
abbrev pub no_partition : GcPartition
no_partition = record {
  nodes = [];
  gray_list = [];
  marking = false;
  memory_used = 0;
  arena = none;
  arena_capacity = 0;
  arena_max_alloc = 0;
}

abbrev pub partition_at : GcHeap → ℕ → GcPartition
partition_at h pid = get_or h.partitions pid no_partition

abbrev pub modify_partition : GcHeap → ℕ → (GcPartition → GcPartition) → GcHeap
modify_partition h pid f = record h { partitions = modify h.partitions pid f }

abbrev pub write_head : GcHeap → Ptr → GcHead → GcHeap
write_head h p n = record h { mem = update h.mem p n }

abbrev pub set_color : GcHeap → Ptr → GcTriColor → GcHeap
set_color h p c = write_head h p (record (h.mem p) { color = c })

abbrev pub set_gray_listed : GcHeap → Ptr → Bool → GcHeap
set_gray_listed h p b = write_head h p (record (h.mem p) { gray_listed = b })

abbrev pub set_marking : Bool → GcPartition → GcPartition
set_marking b par = record par { marking = b }

-- `gray_list.push`
abbrev pub push_gray : Ptr → GcPartition → GcPartition
push_gray p par = record par { gray_list = p ∷ par.gray_list }
