-- ===== src/Mem.antt =====
-- Memory of nodes (src/mem.rs, with `update_mem_use` and `attach_node` of src/heap.rs). What the
-- system allocator returns is an argument, and so is whether a layout is valid.
pub mod Install
pub mod Limit
use gc_lite.Base.{
  ℕ, zero, suc, ◌+◌, ◌-◌, Bool, true, false, not, ◌&&◌, List, [], ◌∷◌, Option, none, some, ltb, leb,
  ◌==◌, if◌then◌else◌, length, keep,
}
use gc_lite.Base.Int.{ℤ, pos, negsuc, neg, as_i32}
use gc_lite.Node.{GcTriColor, white, GcHead, Ptr}
use gc_lite.Gctype.{GcTypeInfo, type_info}
use gc_lite.Arena.{GcArena, arena_alloc}
use gc_lite.Heap.{GcPartition, GcHeap, partition_at, modify_partition, write_head}
use gc_lite.Weak.{null_weak, is_null, index, clear_slot}
use gc_lite.Mark.{partition_add_gray}

-- The errors that allocation reports; the payload goes back to the caller.
pub data GcError : Type 0 where
  allocation_failed invalid_reference partition_full partition_not_found partition_not_empty :
      GcError

pub data GcResult (A : Type 0) : Type 0 where
  ok : A → GcResult A
  err : GcError → GcResult A

-- The debug assertions there say that the subtraction does not underflow.
unfoldable pub update_mem_use : GcHeap → ℕ → ℤ → GcHeap
update_mem_use h id (pos d) =
    let h' = modify_partition h id (λ p. record p { memory_used = p.memory_used + d }) in
    record h' { total_memory_used = h'.total_memory_used + d }
update_mem_use h id (negsuc n) =
    let h' = modify_partition h id (λ p. record p { memory_used = p.memory_used - suc n }) in
    record h' { total_memory_used = h'.total_memory_used - suc n }

-- `GcNodeLink::prepend` on the partition's chain.
unfoldable pub attach_node : GcHeap → ℕ → Ptr → GcHeap
attach_node h pid node = modify_partition h pid (λ p. record p { nodes = node ∷ p.nodes })

-- The header that allocation writes.
unfoldable pub fresh_head : (dtype partition_id : ℕ) → Bool → GcHead
fresh_head dtype pid in_arena = record {
  dtype = dtype;
  color = white;
  arena_alloc = in_arena;
  gray_listed = false;
  root = false;
  local = false;
  traverse_visited = false;
  partition_id = pid;
  weak_id = null_weak;
}

-- Header and payload are written, the memory is counted.
unfoldable pub install : GcHeap → ℕ → ℕ → List Ptr → Bool → ℕ → Ptr → GcHeap
unfolding update_mem_use fresh_head
install h pid dtype refs in_arena gross_size node =
    let h1 = write_head h node (fresh_head dtype pid in_arena) in
    let h2 = record h1 {
      payload = λ q. if node == q then refs else h1.payload q;
      dbg_living_nodes = node ∷ h1.dbg_living_nodes;
    } in
    update_mem_use h2 pid (as_i32 gross_size)

-- The arena path: the pointer and the arena afterwards.
unfoldable pub try_arena : GcPartition → Bool → (size align : ℕ) → Option (ℕ × GcArena)
try_arena par skip_arena size align =
    if not skip_arena && leb size par.arena_max_alloc
    then elim par.arena [ none ↦ none | some a ↦ arena_alloc a size align ]
    else none

-- A payload of type `dtype` that refers to the nodes `refs`. `malloc` is the answer of the system
-- allocator, used only where the arena has none.
unfoldable pub alloc_node_mem :
    (malloc : Option Ptr) (layout_ok : GcTypeInfo → Bool)
    → GcHeap
    → ℕ
    → ℕ
    → List Ptr
    → Bool
    → GcResult (GcHeap × Ptr)
unfolding try_arena install
alloc_node_mem malloc layout_ok h pid dtype refs skip_arena =
    let info = type_info h.node_dtypes dtype in
    let gross_size = info.layout_size in
    if leb (length h.partitions) pid
    then err partition_not_found
    else if not (layout_ok info)
    then err allocation_failed
    else if ltb 0 h.memory_limit && ltb h.memory_limit (h.total_memory_used + gross_size)
    then err partition_full
    else elim (try_arena (partition_at h pid) skip_arena gross_size info.layout_align) [
      | some (p, a) ↦
          let h' = modify_partition h pid (λ par. record par { arena = some a }) in
          ok (install h' pid dtype refs true gross_size p, p)
      | none ↦ elim malloc [
        | none ↦ err allocation_failed
        | some p ↦ ok (install h pid dtype refs false gross_size p, p)
      ]
    ]

abbrev pub map_ok : {A B : Type 0} → (A → B) → GcResult A → GcResult B
map_ok f (ok a) = ok (f a)
map_ok f (err e) = err e

unfoldable pub alloc_raw :
    (malloc : Option Ptr) (layout_ok : GcTypeInfo → Bool)
    → GcHeap
    → ℕ
    → ℕ
    → List Ptr
    → GcResult (GcHeap × Ptr)
unfolding alloc_node_mem attach_node
alloc_raw malloc layout_ok h pid dtype refs =
    map_ok (λ (r : GcHeap × Ptr). (attach_node r.0 pid r.1, r.1))
      (alloc_node_mem malloc layout_ok h pid dtype refs false)

-- What `alloc_root_raw` does with a node: flag, chain, and the gray list of a running cycle.
unfoldable pub attach_root : GcHeap → ℕ → Ptr → GcHeap
unfolding attach_node partition_add_gray
attach_root h pid node =
    let h1 = attach_node (write_head h node (record (h.mem node) { root = true })) pid node in
    if (partition_at h1 pid).marking then partition_add_gray h1 pid node else h1

unfoldable pub alloc_root_raw :
    (malloc : Option Ptr) (layout_ok : GcTypeInfo → Bool)
    → GcHeap
    → ℕ
    → ℕ
    → List Ptr
    → GcResult (GcHeap × Ptr)
unfolding alloc_node_mem attach_root
alloc_root_raw malloc layout_ok h pid dtype refs =
    map_ok (λ (r : GcHeap × Ptr). (attach_root r.0 pid r.1, r.1))
      (alloc_node_mem malloc layout_ok h pid dtype refs true)

abbrev pub gross_size : GcHeap → Ptr → ℕ
gross_size h node = (type_info h.node_dtypes (h.mem node).dtype).layout_size

abbrev pub forget : GcHeap → Ptr → GcHeap
forget h node = record h { dbg_living_nodes = keep (λ q. not (node == q)) h.dbg_living_nodes }

-- An arena node keeps its place in the arena; another goes back to the system, which in the model
-- is to leave the living nodes too.
unfoldable pub dispose_mem_only : GcHeap → Ptr → ℕ → ℕ → GcHeap × ℕ
unfolding update_mem_use
dispose_mem_only h node pid size = (update_mem_use (forget h node) pid (neg (as_i32 size)), size)

abbrev pub clear_weak : GcHeap → Ptr → GcHeap
clear_weak h node =
    let id = (h.mem node).weak_id in
    record h {
      weak_slots = if is_null id then h.weak_slots else clear_slot h.weak_slots (index id);
    }

unfoldable pub dispose_no_drop : GcHeap → Ptr → GcHeap × ℕ
unfolding dispose_mem_only
dispose_no_drop h node =
    dispose_mem_only (clear_weak h node) node (h.mem node).partition_id (gross_size h node)

-- `drop_fn` is called where the type has one: the payloads that it is called on, in order.
unfoldable pub drop_payload : GcHeap → Ptr → List Ptr
drop_payload h node = if (type_info h.node_dtypes (h.mem node).dtype).drop_fn then node ∷ [] else []

-- With the payload's drop, which runs between the weak slot and the memory.
unfoldable pub dispose : GcHeap → Ptr → GcHeap × ℕ × List Ptr
unfolding dispose_mem_only drop_payload
dispose h node =
    let h1 = clear_weak h node in
    let r = dispose_mem_only h1 node (h.mem node).partition_id (gross_size h1 node) in
    (r.0, r.1, drop_payload h1 node)
