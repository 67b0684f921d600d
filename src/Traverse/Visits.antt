-- ===== src/Traverse/Visits.antt =====
-- What the traversal has called when it is over.
use gc_lite.Base.{
  ℕ, ◌+◌, ◌≤◌, ◌≡◌, ◌↔◌, refl, true, false, List, [], ◌∷◌, Option, none, some, arith, ◌∈◌, ==_iff,
  subst, ◌&&◌, not, contains,
}
use gc_lite.Node.{Ptr}
use gc_lite.Heap.{GcHeap, partition_at}
use gc_lite.Traverse.{
  Traversal, selects, traverse, traverse_start, clear_visited, set_traverse_visited,
}
use gc_lite.Traverse.Search.{Leads, here, step, among, distinct, AllLinked, came, IsSearch}
use gc_lite.Traverse.Ends.{cost, run_turns-ends}

-- The calls are those of a search from the start: each node that it leads to once, if the filter
-- selects it, with a parent that refers to it.
pub record IsTraversed (h : GcHeap) (start : Ptr) (filter : Option ℕ) (out : Traversal)
    : Type 0 where
  pub called :
      (p : Ptr)
      → (among out.calls p ≡ true)
        ↔ (Leads h.payload start p × (selects filter (h.mem p).partition_id ≡ true))
  pub once : distinct out.calls ≡ true
  pub linked : AllLinked h.payload start out.calls
  pub marked : (p : Ptr) → Leads h.payload start p → (out.heap.mem p).traverse_visited ≡ true

first : (edges : Ptr → List Ptr) (start p : Ptr) → start ≡ p → Leads edges start p
first edges start p e = subst (λ q. Leads edges start q) e here

module _ (h : GcHeap) (start : Ptr) (filter : Option ℕ)
    (fresh : (p : Ptr) → Leads h.payload start p → (h.mem p).traverse_visited ≡ false) where
  start-IsSearch :
      IsSearch h start filter
        ((start, none) ∷ [])
        (record { heap = h; queue = (start, none) ∷ []; calls = [] })
  unfolding among AllLinked distinct
  start-IsSearch = record {
    payload = λ p. refl;
    owners = λ p. refl;
    mono = λ p e. e;
    queued = λ p i. first h.payload start p ((==_iff start p).0 (ground arith));
    sound = λ p k. absurd (ground arith);
    called = λ p. ground arith;
    closed = λ p c k i. absurd (ground arith);
    started = ground (arith, ==_iff start start);
    once = refl;
    front = (refl, refl);
    linked = refl;
  }

  came_all :
      (out : Traversal) (p : Ptr)
      → IsSearch h start filter [] out
      → Leads h.payload start p
      → came h start filter out p ≡ true
  unfolding among
  came_all out p v here = ground (arith, v.started, fresh start here)
  came_all out p v (step q path edge) =
      ground (arith, v.closed _ q (came_all out _ v path) edge, fresh q (step q path edge))

  search-IsTraversed :
      (out : Traversal) → IsSearch h start filter [] out → IsTraversed h start filter out
  search-IsTraversed out v = record {
    called = λ p. (
      λ k. (v.sound p (ground (arith, v.called p)), ground (arith, v.called p)),
      λ k. ground (arith, v.called p, came_all out p v k.0),
    );
    once = v.once;
    linked = v.linked;
    marked = λ p path. ground (arith, came_all out p v path);
  }

-- Traverse from a node such that no node it leads to is marked as visited. With fuel for one turn per
-- reference out of a list of nodes that holds them all, and two more, the traversal ends. The callback
-- has been called for exactly the nodes that a chain of references joins to the start and that the
-- filter selects, cycles and shared nodes included, once each; the parent passed with a node refers to
-- it, and only the start has none; and every node that the start leads to is marked.
pub traverse-IsTraversed :
    (h : GcHeap) (start : Ptr) (filter : Option ℕ) (nodes : List Ptr) (fuel : ℕ)
    → ((p : Ptr) → Leads h.payload start p → (h.mem p).traverse_visited ≡ false)
    → ((p : Ptr) → Leads h.payload start p → p ∈ nodes)
    → cost nodes h + 2 ≤ fuel
    → (out : Traversal) × (traverse fuel h start filter ≡ some out) × IsTraversed h start filter out
unfolding traverse
traverse-IsTraversed h start filter nodes fuel fresh covers enough =
    let (out, e, v) =
      run_turns-ends h start filter nodes covers fuel ((start, none) ∷ [])
        (record { heap = h; queue = (start, none) ∷ []; calls = [] })
        (start-IsSearch h start filter fresh) (omega arith) in
    (out, e, search-IsTraversed h start filter fresh out v)

clear_visited-marks :
    (nodes : List Ptr) (h : GcHeap) (p : Ptr)
    → ((clear_visited nodes h).mem p).traverse_visited
      ≡ ((h.mem p).traverse_visited && not (contains nodes p))
unfolding clear_visited
clear_visited-marks [] h p = ground arith
clear_visited-marks (x ∷ nodes) h p =
    ground (arith, clear_visited-marks nodes (set_traverse_visited h x false) p, ==_iff x p)

-- `traverse_start` clears the mark of each node of the partition's chain, and of no other node.
pub traverse_start-marks :
    (h : GcHeap) (pid : ℕ) (p : Ptr)
    → ((traverse_start h pid).mem p).traverse_visited
      ≡ ((h.mem p).traverse_visited && not (contains (partition_at h pid).nodes p))
unfolding traverse_start
traverse_start-marks h pid p = clear_visited-marks (partition_at h pid).nodes h p
