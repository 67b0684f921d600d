-- ===== src/Barrier.antt =====
-- What the user's code does to nodes between the collector's steps: the write barriers of
-- src/node.rs and `set_root_node` of src/heap.rs.
pub mod Greyed
pub mod Cycle
pub mod Write
pub mod Root
pub mod Alloc
pub mod Steps
pub mod Safe
pub mod Local
use gc_lite.Base.{ℕ, Bool, true, not, ◌&&◌, List, ◌==◌, if◌then◌else◌, update}
use gc_lite.Node.{GcTriColor, gray, is_black, GcHead, Ptr}
use gc_lite.Heap.{GcHeap, partition_at, write_head, set_color}
use gc_lite.Mark.{enlist, partition_add_gray, add_gray_node, is_node_partition_marking}

-- The user writes the fields of a payload: it refers to the nodes `refs` afterwards.
abbrev pub write_payload : GcHeap → Ptr → List Ptr → GcHeap
write_payload h node refs = record h { payload = update h.payload node refs }

-- The barrier part of `with_write_barrier`.
unfoldable pub reopen : GcHeap → Ptr → GcHeap
unfolding add_gray_node
reopen h node =
    if is_node_partition_marking h node && is_black (h.mem node).color
    then add_gray_node (set_color h node gray) node
    else h

-- `refs` are the payload's references after the mutator ran.
unfoldable pub with_write_barrier : GcHeap → Ptr → List Ptr → GcHeap
unfolding reopen
with_write_barrier h node refs = write_payload (reopen h node) node refs

-- The tri-color write barrier of `bind`.
unfoldable pub bind_color : GcHeap → Ptr → Ptr → GcHeap
unfolding add_gray_node
bind_color h master slave =
    if is_black (h.mem master).color && not (is_black (h.mem slave).color)
    then (let h1 = set_color h slave gray in
        if is_node_partition_marking h1 slave then add_gray_node h1 slave else h1)
    else h

-- The part of `bind` for references between partitions.
unfoldable pub bind_cross : GcHeap → Ptr → Ptr → GcHeap
bind_cross h master slave =
    let slave_pid = (h.mem slave).partition_id in
    if not ((h.mem master).partition_id == slave_pid)
      && not (is_black (h.mem slave).color)
      && (partition_at h slave_pid).marking
    then enlist (set_color h slave gray) slave_pid slave
    else h

unfoldable pub bind : GcHeap → Ptr → Ptr → GcHeap
unfolding bind_color bind_cross
bind h master slave = bind_cross (bind_color h master slave) master slave

unfoldable pub set_root_node : GcHeap → Ptr → GcHeap
unfolding partition_add_gray
set_root_node h node =
    if (h.mem node).root
    then h
    else let h1 = write_head h node (record (h.mem node) { root = true }) in
      let pid = (h.mem node).partition_id in
      if (partition_at h1 pid).marking then partition_add_gray h1 pid node else h1
