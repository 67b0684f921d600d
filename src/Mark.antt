-- ===== src/Mark.antt =====
-- The mark phase (src/mark_sweep.rs, with `GcPartition::add_gray_node` of src/partition.rs).
pub mod Frame
pub mod Shade
pub mod Invariant
pub mod Loop
pub mod Seed
pub mod Prepare
pub mod Cycle
use gc_lite.Base.{
  ℕ, zero, suc, ◌+◌, Bool, true, false, not, List, [], ◌∷◌, ◌++◌, Option, none, some, ltb, leb,
  ◌==◌, if◌then◌else◌, length,
}
use gc_lite.Node.{GcTriColor, white, gray, black, is_black, is_gray, Ptr, is_root_or_local}
use gc_lite.Heap.{
  GcPartition, GcHeap, partition_at, modify_partition, set_color, set_gray_listed, set_marking,
  push_gray,
}
use gc_lite.Trace.{trace_node}

-- The tail of `add_gray_node`: listed once.
abbrev pub enlist : GcHeap → ℕ → Ptr → GcHeap
enlist h pid node =
    if (h.mem node).gray_listed
    then h
    else modify_partition (set_gray_listed h node true) pid (push_gray node)

-- `GcPartition::add_gray_node`, on the partition `pid`.
unfoldable pub partition_add_gray : GcHeap → ℕ → Ptr → GcHeap
partition_add_gray h pid node = elim ((h.mem node).color) [
  | GcTriColor.white ↦ enlist (set_color h node gray) pid node
  | GcTriColor.gray ↦ enlist h pid node
  | GcTriColor.black ↦ h
]

unfoldable pub add_gray_node : GcHeap → Ptr → GcHeap
unfolding partition_add_gray
add_gray_node h node =
    if is_black (h.mem node).color then h else partition_add_gray h (h.mem node).partition_id node

abbrev pub is_node_partition_marking : GcHeap → Ptr → Bool
is_node_partition_marking h node = (partition_at h (h.mem node).partition_id).marking

unfoldable pub clear_listed : List Ptr → GcHeap → GcHeap
clear_listed [] h = h
clear_listed (n ∷ rest) h = clear_listed rest (set_gray_listed h n false)

unfoldable pub whiten : List Ptr → GcHeap → GcHeap
whiten [] h = h
whiten (n ∷ rest) h = whiten rest (set_color h n white)

unfoldable pub mark_reset : GcHeap → ℕ → GcHeap
unfolding clear_listed whiten
mark_reset h pid =
    let par = partition_at h pid in
    let h1 = clear_listed par.gray_list (modify_partition h pid (set_marking false)) in
    whiten par.nodes (modify_partition h1 pid (λ p. record p { gray_list = [] }))

-- `for par in &mut self.partitions { par.set_marking(true) }`
unfoldable pub mark_all : List GcPartition → List GcPartition
mark_all [] = []
mark_all (par ∷ rest) = set_marking true par ∷ mark_all rest

-- One round of the first loop over the nodes of partition `i`.
unfoldable pub seed_node : Bool → ℕ → Ptr → GcHeap → GcHeap
seed_node has_pending_grays i n h =
    if is_root_or_local (h.mem n)
    then (if has_pending_grays
        then set_color h n gray
        else modify_partition (set_color h n gray) i (push_gray n))
    else if has_pending_grays
    then h
    else set_color h n white

unfoldable pub seed_nodes : Bool → ℕ → List Ptr → GcHeap → GcHeap
unfolding seed_node
seed_nodes pending i [] h = h
seed_nodes pending i (n ∷ rest) h = seed_nodes pending i rest (seed_node pending i n h)

-- One round of the second loop, which runs only where grays were pending.
unfoldable pub relist_node : ℕ → Ptr → GcHeap → GcHeap
relist_node i n h = if is_root_or_local (h.mem n) then enlist (set_color h n gray) i n else h

unfoldable pub relist_nodes : ℕ → List Ptr → GcHeap → GcHeap
unfolding relist_node
relist_nodes i [] h = h
relist_nodes i (n ∷ rest) h = relist_nodes i rest (relist_node i n h)

abbrev pub is_empty {ℓ} : {A : Type ℓ} → List A → Bool
is_empty [] = true
is_empty (x ∷ xs) = false

unfoldable pub seed_partition : ℕ → GcHeap → GcHeap
unfolding seed_nodes relist_nodes
seed_partition i h =
    let par = partition_at h i in
    let has_pending_grays = not (is_empty par.gray_list) in
    let seeded = seed_nodes has_pending_grays i par.nodes h in
    if has_pending_grays then relist_nodes i par.nodes seeded else seeded

-- `for i in 0..self.partitions.len()`: `n` rounds from `i` on.
unfoldable pub seed_partitions : ℕ → ℕ → GcHeap → GcHeap
unfolding seed_partition
seed_partitions zero i h = h
seed_partitions (suc n) i h = seed_partitions n (i + 1) (seed_partition i h)

unfoldable pub mark_prepare : GcHeap → ℕ → GcHeap
mark_prepare h pid =
    if leb (length h.partitions) pid
    then h
    else if (partition_at h pid).marking
    then h
    else seed_partitions (length h.partitions) 0 (record h { partitions = mark_all h.partitions })

-- The variables of the loops of `mark_grays`: `gray` is the gray list of the partition that is
-- marked, a variable here, written back when the loop ends; `cross` is `cross_buffer`.
pub record Tracing : Type 0 where
  pub heap : GcHeap
  pub gray : List Ptr
  pub cross : List (ℕ × Ptr)

-- The body of `while let Some(ch) = gcx.traced_nodes.pop()`.
unfoldable pub shade_child : ℕ → Ptr → Tracing → Tracing
shade_child pid ch t =
    if is_black (t.heap.mem ch).color
    then t
    else let shaded = set_gray_listed (set_color t.heap ch gray) ch true in
      let child_pid = (t.heap.mem ch).partition_id in
      if child_pid == pid
      then record t { heap = shaded; gray = ch ∷ t.gray }
      else record t { heap = shaded; cross = t.cross ++ (child_pid, ch) ∷ [] }

unfoldable pub shade_children : ℕ → List Ptr → Tracing → Tracing
unfolding shade_child
shade_children pid [] t = t
shade_children pid (ch ∷ rest) t = shade_children pid rest (shade_child pid ch t)

unfoldable pub flush : List (ℕ × Ptr) → GcHeap → GcHeap
flush [] h = h
flush ((cpid, node) ∷ rest) h = flush rest (modify_partition h cpid (push_gray node))

-- A gray node is traced: children, cross buffer, then black.
unfoldable pub blacken : ℕ → Ptr → List Ptr → GcHeap → Tracing
unfolding shade_children flush trace_node
blacken pid node g h =
    let t = shade_children pid (trace_node h node) (record { heap = h; gray = g; cross = [] }) in
    record { heap = set_color (flush t.cross t.heap) node black; gray = t.gray; cross = [] }

abbrev pub put_gray : GcHeap → ℕ → List Ptr → GcHeap
put_gray h pid g = modify_partition h pid (λ p. record p { gray_list = g })

-- `while let Some(node) = gray_list.pop()`: `steps` is `max_steps - cnt`.
unfoldable pub mark_loop : ℕ → List Ptr → ℕ → GcHeap → Bool × GcHeap
unfolding blacken
mark_loop steps [] pid h = (true, put_gray h pid [])
mark_loop zero (node ∷ g) pid h =
    let h' = set_gray_listed h node false in
    elim (is_gray (h.mem node).color) [
      | true ↦ (false, put_gray h' pid (node ∷ g))
      | false ↦ mark_loop zero g pid h'
    ]
mark_loop (suc steps) (node ∷ g) pid h =
    let h' = set_gray_listed h node false in
    elim (is_gray (h.mem node).color) [
      | true ↦ let t = blacken pid node g h' in mark_loop steps t.gray pid t.heap
      | false ↦ mark_loop (suc steps) g pid h'
    ]

unfoldable pub mark_grays : GcHeap → ℕ → ℕ → Bool × GcHeap
mark_grays h pid max_steps =
    if max_steps == 0 then (false, h) else mark_loop max_steps (partition_at h pid).gray_list pid h

unfoldable pub mark : GcHeap → ℕ → ℕ → Bool × GcHeap
mark h pid max_steps =
    let h' = mark_prepare h pid in
    if ltb 0 max_steps then mark_grays h' pid max_steps else (false, h')

-- `while !self.mark(partition_id, 64) {}` with fuel; `none` means that it ran out.
unfoldable pub mark_until : ℕ → GcHeap → ℕ → Option GcHeap
mark_until zero h pid = none
mark_until (suc fuel) h pid =
    let r = mark h pid 64 in let again = mark_until fuel r.1 pid in if r.0 then some r.1 else again
