-- ===== src/Traverse.antt =====
-- The traversal of the nodes that a node refers to (src/trace.rs, `traverse_start` and `traverse`). The
-- queue is a list, its front first. The callback has no access to the heap: it is shown by its calls,
-- the last first.
pub mod Search
pub mod Ends
pub mod Visits
use gc_lite.Base.{
  ℕ, zero, suc, Bool, true, false, List, [], ◌∷◌, ◌++◌, Option, none, some, ◌==◌, ◌||◌,
  if◌then◌else◌,
}
use gc_lite.Node.{Ptr}
use gc_lite.Heap.{GcHeap, partition_at, write_head}
use gc_lite.Trace.{trace_node}

abbrev pub set_traverse_visited : GcHeap → Ptr → Bool → GcHeap
set_traverse_visited h p b = write_head h p (record (h.mem p) { traverse_visited = b })

unfoldable pub clear_visited : List Ptr → GcHeap → GcHeap
clear_visited [] h = h
clear_visited (node ∷ nodes) h = clear_visited nodes (set_traverse_visited h node false)

unfoldable pub traverse_start : GcHeap → ℕ → GcHeap
unfolding clear_visited
traverse_start h partition_id = clear_visited (partition_at h partition_id).nodes h

-- A node and the one that refers to it.
abbrev pub Visit : Type 0
Visit = Ptr × Option Ptr

pub record Traversal : Type 0 where
  pub heap : GcHeap
  pub queue : List Visit
  pub calls : List Visit

-- `filter.is_none() || filter == Some(partition_id)`
unfoldable pub selects : Option ℕ → ℕ → Bool
selects none partition_id = true
selects (some wanted) partition_id = wanted == partition_id

-- The children that the context holds, from its last to its first.
unfoldable pub push_children : GcHeap → Ptr → List Ptr → List Visit → List Visit
push_children h current [] queue = queue
push_children h current (child ∷ traced) queue =
    push_children h current traced
      (if (h.mem child).traverse_visited then queue else queue ++ ((child, some current) ∷ []))

-- A node that had no mark: mark, callback, children.
unfoldable pub visit : Option ℕ → Ptr → Option Ptr → List Visit → Traversal → Traversal
unfolding selects push_children
visit filter current parent queue s =
    let h = set_traverse_visited s.heap current true in
    record {
      heap = h;
      queue = push_children h current (trace_node h current) queue;
      calls =
          if selects filter (h.mem current).partition_id
          then (current, parent) ∷ s.calls
          else s.calls;
    }

-- The loop's body for the front (current, parent) of the queue.
unfoldable pub turn : Option ℕ → Ptr → Option Ptr → List Visit → Traversal → Traversal
unfolding visit
turn filter current parent queue s =
    if (s.heap.mem current).traverse_visited
    then record s { queue = queue }
    else visit filter current parent queue s

-- `none` when the fuel runs out.
unfoldable pub run_turns : ℕ → Option ℕ → List Visit → Traversal → Option Traversal
unfolding turn
run_turns zero filter queue s = none
run_turns (suc fuel) filter [] s = some s
run_turns (suc fuel) filter ((current, parent) ∷ queue) s =
    let s1 = turn filter current parent queue s in run_turns fuel filter s1.queue s1

unfoldable pub traverse : ℕ → GcHeap → Ptr → Option ℕ → Option Traversal
unfolding run_turns
traverse fuel h node filter =
    run_turns fuel filter ((node, none) ∷ [])
      (record { heap = h; queue = (node, none) ∷ []; calls = [] })
