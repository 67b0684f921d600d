-- ===== src/Traverse/Ends.antt =====
-- The fuel that the traversal's loop takes.
use gc_lite.Base.{
  ℕ, zero, suc, ◌+◌, ◌≤◌, ◌<◌, ◌≡◌, refl, sym, subst, true, false, List, [], ◌∷◌, Option, some,
  if◌then◌else◌, ◌∈◌, length, arith, ==_iff, Bool-cases, inl, inr,
}
use gc_lite.Node.{Ptr}
use gc_lite.Heap.{GcHeap}
use gc_lite.Trace.{trace_node}
use gc_lite.Traverse.{Visit, Traversal, turn, visit, run_turns, set_traverse_visited}
use gc_lite.Traverse.Search.{
  Leads, among, IsSearch, turn-IsSearch, turn_marked, turn_unmarked, length-push_children,
  length-trace_node,
}

-- The references out of the nodes of a list that are not visited yet.
unfoldable pub cost : List Ptr → GcHeap → ℕ
cost [] h = 0
cost (p ∷ ps) h = (if (h.mem p).traverse_visited then 0 else length (h.payload p)) + cost ps h

module _ (h : GcHeap) (p : Ptr) where
  abbrev marked : GcHeap
  marked = set_traverse_visited h p true

  cost_mono : (ps : List Ptr) → cost ps marked ≤ cost ps h
  unfolding cost
  cost_mono [] = omega arith
  cost_mono (x ∷ ps) = ground (arith, cost_mono ps, ==_iff p x)

  cost_falls :
      (ps : List Ptr)
      → p ∈ ps
      → (h.mem p).traverse_visited ≡ false
      → cost ps marked + length (h.payload p) ≤ cost ps h
  unfolding cost
  cost_falls [] i new = cc
  cost_falls (x ∷ ps) i new = ground (arith, cost_mono ps, cost_falls ps, ==_iff x p, ==_iff p x)

-- `nodes` holds every node that the start leads to.
module _ (h : GcHeap) (start : Ptr) (filter : Option ℕ) (nodes : List Ptr)
    (covers : (p : Ptr) → Leads h.payload start p → p ∈ nodes) where
  -- Each turn takes one from the queue, and adds no more than the references that the cost loses.
  visit-cost :
      (current : Ptr) (parent : Option Ptr) (queue : List Visit) (s : Traversal)
      → IsSearch h start filter ((current, parent) ∷ queue) s
      → (s.heap.mem current).traverse_visited ≡ false
      → let s1 = visit filter current parent queue s in
        length s1.queue + cost nodes s1.heap ≤ length queue + cost nodes s.heap
  unfolding among visit
  visit-cost current parent queue s v new =
      let g = set_traverse_visited s.heap current true in
      let at : Leads h.payload start current =
        v.queued current (ground (arith, ==_iff current current)) in
      omega (
        arith,
        length-push_children g current (trace_node g current) queue,
        length-trace_node g current,
        cost_falls s.heap current nodes (covers current at) new,
      )

  turn-cost :
      (current : Ptr) (parent : Option Ptr) (queue : List Visit) (s : Traversal)
      → IsSearch h start filter ((current, parent) ∷ queue) s
      → let s1 = turn filter current parent queue s in
        length s1.queue + cost nodes s1.heap ≤ length queue + cost nodes s.heap
  unfolding among
  turn-cost current parent queue s v = elim (Bool-cases (s.heap.mem current).traverse_visited) [
    | inl seen ↦
        subst
          (λ (t : Traversal). length t.queue + cost nodes t.heap ≤ length queue + cost nodes s.heap)
          (sym (turn_marked h start filter current parent queue s seen)) (omega arith)
    | inr new ↦
        subst
          (λ (t : Traversal). length t.queue + cost nodes t.heap ≤ length queue + cost nodes s.heap)
          (sym (turn_unmarked h start filter current parent queue s new))
          (visit-cost current parent queue s v new)
  ]

  -- Enough fuel, and the loop ends with an empty queue.
  pub run_turns-ends :
      (fuel : ℕ) (queue : List Visit) (s : Traversal)
      → IsSearch h start filter queue s
      → length queue + cost nodes s.heap < fuel
      → (out : Traversal) × (run_turns fuel filter queue s ≡ some out)
        × IsSearch h start filter [] out
  unfolding run_turns
  run_turns-ends zero queue s v lt = absurd (omega arith)
  run_turns-ends (suc fuel) [] s v lt = (s, refl, v)
  run_turns-ends (suc fuel) ((current, parent) ∷ queue) s v lt =
      let s1 = turn filter current parent queue s in
      run_turns-ends fuel s1.queue s1 (turn-IsSearch h start filter current parent queue s v)
        (omega (arith, turn-cost current parent queue s v))
