-- ===== src/Sweep.antt =====
-- The sweep phase and `garbage_collect` (src/mark_sweep.rs).
pub mod Books
pub mod Dispose
pub mod Passes
pub mod Result
pub mod Accounts
pub mod Facts
pub mod Collect
pub mod Dangling
pub mod Single
pub mod Renode
pub mod Agrees
pub mod InPlace
pub mod Deprecated
use gc_lite.Base.{
  ℕ, zero, suc, ◌+◌, Bool, true, false, not, ◌&&◌, List, [], ◌∷◌, ◌++◌, Option, none, some, leb,
  ◌==◌, if◌then◌else◌, length, keep,
}
use gc_lite.Node.{GcTriColor, is_white, GcHead, Ptr, is_root_or_local}
use gc_lite.Gctype.{GcTypeRegistry, type_info}
use gc_lite.Arena.{GcArena, Hole, collect_hole, finish_sweep}
use gc_lite.Heap.{GcPartition, GcHeap, partition_at, modify_partition, set_marking}
use gc_lite.Mem.{dispose_no_drop, dispose, gross_size, drop_payload}
use gc_lite.Mark.{mark_until, is_empty}

abbrev pub is_dead : GcHeap → Ptr → Bool
is_dead h n = is_white (h.mem n).color && not (is_root_or_local (h.mem n))

-- The chain is split in one walk that keeps the order on both sides.
unfoldable pub split_chain : GcHeap → ℕ → GcHeap × List Ptr
split_chain h pid =
    let ns = (partition_at h pid).nodes in
    let live = keep (λ n. not (is_dead h n)) ns in
    (modify_partition h pid (λ p. record p { nodes = live }), keep (is_dead h) ns)

-- `take(&mut par.nodes).into_inner()?`: no list where the chain is empty.
unfoldable pub sweep_chain : GcHeap → ℕ → GcHeap × Option (List Ptr)
unfolding split_chain
sweep_chain h pid =
    let r = split_chain h pid in
    if is_empty (partition_at h pid).nodes then (h, none) else (r.0, some r.1)

-- Where the chain is empty the partition has left its cycle all the same.
unfoldable pub sweep_unlink : GcHeap → ℕ → GcHeap × Option (List Ptr)
unfolding sweep_chain
sweep_unlink h pid =
    if leb (length h.partitions) pid
    then (h, none)
    else if (partition_at h pid).marking && is_empty (partition_at h pid).gray_list
    then sweep_chain (modify_partition h pid (set_marking false)) pid
    else (h, none)

-- The payloads that are dropped, in order.
unfoldable pub sweep_drop_payloads : GcHeap → List Ptr → List Ptr
unfolding drop_payload
sweep_drop_payloads h [] = []
sweep_drop_payloads h (n ∷ rest) = drop_payload h n ++ sweep_drop_payloads h rest

-- The variables of the loops of `sweep_dispose`.
pub record Disposal : Type 0 where
  pub heap : GcHeap
  pub holes : List Hole
  pub freed_bytes : ℕ

abbrev pub drop_pass : GcHeap → Ptr → ℕ
drop_pass h n = (type_info h.node_dtypes (h.mem n).dtype).drop_pass

-- An arena node that was disposed of leaves a hole in the arena.
unfoldable pub collect_node : ℕ → Ptr → ℕ → Disposal → Disposal
collect_node pid n size d = elim ((partition_at d.heap pid).arena) [
  | none ↦ d
  | some a ↦
      let r = collect_hole a d.holes n size in
      record d {
        heap = modify_partition d.heap pid (λ p. record p { arena = some r.0 });
        holes = r.1;
      }
]

unfoldable pub dispose_node : ℕ → Ptr → Disposal → Disposal
unfolding collect_node
dispose_node pid n d =
    let r = dispose_no_drop d.heap n in
    let d' = record d { heap = r.0; freed_bytes = d.freed_bytes + r.1 } in
    if (d.heap.mem n).arena_alloc then collect_node pid n (gross_size d.heap n) d' else d'

-- One pass over what remains: the nodes of the pass are disposed of, the others kept in order.
unfoldable pub dispose_pass : ℕ → ℕ → List Ptr → Disposal → List Ptr × Disposal
unfolding dispose_node
dispose_pass pid pass [] d = ([], d)
dispose_pass pid pass (n ∷ rest) d =
    let mine = drop_pass d.heap n == pass in
    let r = dispose_pass pid pass rest (if mine then dispose_node pid n d else d) in
    (if mine then r.0 else n ∷ r.0, r.1)

unfoldable pub dispose_passes : ℕ → List ℕ → List Ptr → Disposal → List Ptr × Disposal
unfolding dispose_pass
dispose_passes pid [] remaining d = (remaining, d)
dispose_passes pid (pass ∷ passes) remaining d =
    let r = dispose_pass pid pass remaining d in
    let next = dispose_passes pid passes r.0 r.1 in if is_empty r.0 then r else next

abbrev pub finish_arena : ℕ → List Hole → GcHeap → GcHeap
finish_arena pid holes h = elim ((partition_at h pid).arena) [
  | none ↦ h
  | some a ↦ modify_partition h pid (λ p. record p { arena = some (finish_sweep a holes) })
]

unfoldable pub sweep_dispose : GcHeap → ℕ → List Ptr → GcHeap × ℕ
unfolding dispose_passes
sweep_dispose h pid white =
    let start : Disposal = record { heap = h; holes = []; freed_bytes = 0 } in
    let d = (dispose_passes pid h.node_dtypes.drop_passes white start).1 in
    (finish_arena pid d.holes d.heap, d.freed_bytes)

-- The collection's result: the heap, the bytes freed, and the payloads dropped, in order.
pub record Collected : Type 0 where
  pub heap : GcHeap
  pub freed_bytes : ℕ
  pub dropped : List Ptr

unfoldable pub sweep_all : GcHeap → ℕ → Collected
sweep_all h pid =
    let r = sweep_unlink h pid in
    elim r.1 [
      | none ↦ record { heap = r.0; freed_bytes = 0; dropped = [] }
      | some white ↦
          let s = sweep_dispose r.0 pid white in
          record { heap = s.0; freed_bytes = s.1; dropped = sweep_drop_payloads r.0 white }
    ]

-- `fuel` bounds the rounds of `while !self.mark(partition_id, 64) {}`; `none` means that it ran out.
unfoldable pub garbage_collect : ℕ → GcHeap → ℕ → Option Collected
garbage_collect fuel h pid =
    if leb (length h.partitions) pid
    then some (record { heap = h; freed_bytes = 0; dropped = [] })
    else elim (mark_until fuel h pid) [ none ↦ none | some k ↦ some (sweep_all k pid) ]

-- `dispose_all_nodes`: pass by pass, with the payload's drop.
unfoldable pub dispose_all_pass : ℕ → List Ptr → Collected → List Ptr × Collected
dispose_all_pass pass [] c = ([], c)
dispose_all_pass pass (n ∷ rest) c =
    let mine = drop_pass c.heap n == pass in
    let d = dispose c.heap n in
    let c' : Collected = record {
      heap = d.0;
      freed_bytes = c.freed_bytes + d.1;
      dropped = c.dropped ++ d.2;
    } in
    let r = dispose_all_pass pass rest (if mine then c' else c) in
    (if mine then r.0 else n ∷ r.0, r.1)

unfoldable pub dispose_all_passes : List ℕ → List Ptr → Collected → List Ptr × Collected
unfolding dispose_all_pass
dispose_all_passes [] link c = (link, c)
dispose_all_passes (pass ∷ passes) link c =
    let r = dispose_all_pass pass link c in
    let next = dispose_all_passes passes r.0 r.1 in if is_empty r.0 then r else next

unfoldable pub dispose_all_nodes : GcHeap → List Ptr → Collected
unfolding dispose_all_passes
dispose_all_nodes h link =
    (dispose_all_passes h.node_dtypes.drop_passes link
      (record { heap = h; freed_bytes = 0; dropped = [] })).1
