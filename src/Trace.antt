-- ===== src/Trace.antt =====
-- The trace context (src/trace.rs): what a payload's trace function submits.
use gc_lite.Base.{List, [], ◌∷◌, contains, if◌then◌else◌}
use gc_lite.Node.{Ptr}
use gc_lite.Heap.{GcHeap}

-- `traced_nodes`, its last element first.
unfoldable pub add_node : Ptr → List Ptr → List Ptr
add_node node traced = if contains traced node then traced else node ∷ traced

unfoldable pub submit : List Ptr → List Ptr → List Ptr
unfolding add_node
submit [] traced = traced
submit (node ∷ rest) traced = submit rest (add_node node traced)

-- The call of `trace_fn` with an empty context.
unfoldable pub trace_node : GcHeap → Ptr → List Ptr
unfolding submit
trace_node h node = submit (h.payload node) []
