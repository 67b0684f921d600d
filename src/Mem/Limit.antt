-- ===== src/Mem/Limit.antt =====
-- The memory limit and the accounts at an allocation.
use gc_lite.Base.{
  ◌==◌, ◌||◌, true, ℕ, ◌+◌, ◌^◌, ◌≡◌, ◌<◌, Bool, false, ◌&&◌, List, ◌∷◌, arith, length, ==_iff,
  Bool-cases, inl, inr, ltb, leb, Option, subst, get_or-modify,
}
use gc_lite.Node.{Ptr}
use gc_lite.Gctype.{GcTypeInfo, type_info}
use gc_lite.Heap.{GcPartition, GcHeap, partition_at, no_partition}
use gc_lite.Mem.{ok, alloc_node_mem, alloc_raw, attach_node}
use gc_lite.Mem.Install.{Installed, alloc_node_mem-Installed, map_ok-ok}

-- A success has passed the test of the limit.
alloc_node_mem-room :
    (malloc : Option Ptr) (layout_ok : GcTypeInfo → Bool) (h : GcHeap) (pid dtype : ℕ)
    (refs : List Ptr) (skip : Bool) (r : GcHeap × Ptr)
    → alloc_node_mem malloc layout_ok h pid dtype refs skip ≡ ok r
    → (ltb 0 h.memory_limit
        && ltb h.memory_limit (h.total_memory_used + (type_info h.node_dtypes dtype).layout_size))
      ≡ false
unfolding alloc_node_mem
alloc_node_mem-room malloc layout_ok h pid dtype refs skip r e =
    let info = type_info h.node_dtypes dtype in
    elim (Bool-cases
      (ltb 0 h.memory_limit && ltb h.memory_limit (h.total_memory_used + info.layout_size))) [
        | inr room ↦ room
        | inl full ↦ elim (Bool-cases (leb (length h.partitions) pid)) [
          | inl past ↦ cc (rw past at e)
          | inr in_range ↦ elim (Bool-cases (layout_ok info)) [
            | inr bad ↦ cc (rw (in_range, bad) at e)
            | inl good ↦ cc (rw (in_range, good, full) at e)
          ]
        ]
      ]

at_head :
    {h : GcHeap} {pid : ℕ} {refs : List Ptr} {size : ℕ} {p : Ptr} {k : GcHeap}
    → Installed h pid refs size p k
    → (partition_at (attach_node k pid p) pid).nodes ≡ p ∷ (partition_at h pid).nodes
unfolding attach_node
at_head {pid = pid} {p = p} {k = k} v = ground (
  arith,
  get_or-modify k.partitions pid pid (λ (par : GcPartition). record par { nodes = p ∷ par.nodes })
      no_partition,
  v.pars pid,
  v.count,
  v.range,
  ==_iff pid pid,
)

-- Where `alloc_raw` succeeds for a type whose size is below 2^31, the heap's account grows by the
-- size of the type and stays within the limit where there is one; the new node stands at the head of
-- the chain of its partition.
pub alloc_raw-memory_limit :
    (malloc : Option Ptr) (layout_ok : GcTypeInfo → Bool) (h : GcHeap) (pid dtype : ℕ)
    (refs : List Ptr) (g : GcHeap) (p : Ptr)
    → (type_info h.node_dtypes dtype).layout_size < 2 ^ 31
    → alloc_raw malloc layout_ok h pid dtype refs ≡ ok (g, p)
    → (g.total_memory_used ≡ h.total_memory_used + (type_info h.node_dtypes dtype).layout_size)
      × ((h.memory_limit == 0 || leb g.total_memory_used h.memory_limit) ≡ true)
      × ((partition_at g pid).nodes ≡ p ∷ (partition_at h pid).nodes)
unfolding alloc_raw
alloc_raw-memory_limit malloc layout_ok h pid dtype refs g p small e =
    let ((k, q), made, same) =
      map_ok-ok (λ (r : GcHeap × Ptr). (attach_node r.0 pid r.1, r.1))
        (alloc_node_mem malloc layout_ok h pid dtype refs false) (g, p) e in
    let v = alloc_node_mem-Installed malloc layout_ok h pid dtype refs false k q made in
    subst
      (λ (r : GcHeap × Ptr).
        (r.0.total_memory_used ≡ h.total_memory_used + (type_info h.node_dtypes dtype).layout_size)
        × ((h.memory_limit == 0 || leb r.0.total_memory_used h.memory_limit) ≡ true)
        × ((partition_at r.0 pid).nodes ≡ r.1 ∷ (partition_at h pid).nodes))
      same
      (
        v.total small,
        ground (
          arith,
          v.total small,
          alloc_node_mem-room malloc layout_ok h pid dtype refs false (k, q) made,
        ),
        at_head v,
      )
