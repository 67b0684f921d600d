-- ===== src/Tests/Chains.antt =====
-- Packed headers, chains in memory and traversals at small inputs.
use gc_lite.Base.{
  ◌≡◌, refl, true, false, List, [], ◌∷◌, Option, none, some, ◌∈◌, arith, ◌==◌, if◌then◌else◌,
  ==_iff, count,
}
use gc_lite.Node.{black, Ptr}
use gc_lite.Heap.{partition_at}
use gc_lite.Mem.{fresh_head}
use gc_lite.Attrs.{GcNodeFlag, set_color, fresh_attrs, is_gray_listed}
use gc_lite.Attrs.Refines.{
  IsPacked, Write, color_to, insert, gray_listed_to, visited_to, clear_local, writes, effects,
  writes-IsPacked,
}
use gc_lite.Links.{
  Next, GcNodeLink, prepend, iterate, len, filter_remove_with, empty, Halves, split_loop, Pass,
  pass_loop,
}
use gc_lite.Links.Segments.{Segment, IsChain}
use gc_lite.Links.Walk.{prepend-iterate}
use gc_lite.Links.Filter.{filter_remove_with-keep}
use gc_lite.Links.Kept.{pass_loop-keep}
use gc_lite.Links.Refines.{split_loop-split_chain}
use gc_lite.Sweep.{is_dead, split_chain}
use gc_lite.Trace.{trace_node}
use gc_lite.Traverse.{Traversal, traverse}
use gc_lite.Traverse.Search.{Leads, here, step}
use gc_lite.Traverse.Ends.{cost}
use gc_lite.Traverse.Visits.{IsTraversed, traverse-IsTraversed}
use gc_lite.Tests.Sample.{sample}

abbrev some_writes : List Write
some_writes =
    insert GcNodeFlag.root
    ∷ gray_listed_to true
    ∷ color_to black
    ∷ gray_listed_to false
    ∷ insert GcNodeFlag.local
    ∷ visited_to true
    ∷ clear_local
    ∷ []

written : writes some_writes (fresh_attrs 7 true) ≡ 0xFF0007A6
unfolding writes fresh_attrs set_color
written = refl

writes-IsPacked_example :
    IsPacked (writes some_writes (fresh_attrs 7 true)) (effects some_writes (fresh_head 7 0 true))
    × (is_gray_listed (writes some_writes (fresh_attrs 7 true))
        ≡ (effects some_writes (fresh_head 7 0 true)).gray_listed)
writes-IsPacked_example = writes-IsPacked some_writes 7 0 true (omega arith)

-- Nodes 1, 2 and 3, chained in that order.
abbrev chained : Next
chained p = if p == 1 then some 2 else if p == 2 then some 3 else none

chained-IsChain : IsChain chained (some 1) (1 ∷ 2 ∷ 3 ∷ [])
unfolding Segment count
chained-IsChain = record {
  linked = (refl, (refl, (refl, refl)));
  once = λ q. ground (arith, ==_iff 1 q, ==_iff 2 q, ==_iff 3 q);
}

prepend-iterate_example :
    let out = prepend (record { next = chained; link_head = some 1 }) 9 in
    (iterate 5 out.next out.link_head ≡ some (9 ∷ 1 ∷ 2 ∷ 3 ∷ []))
    × (len 5 out.next out.link_head ≡ some 4)
    × IsChain out.next out.link_head (9 ∷ 1 ∷ 2 ∷ 3 ∷ [])
unfolding count
prepend-iterate_example =
    prepend-iterate (record { next = chained; link_head = some 1 }) 9 (1 ∷ 2 ∷ 3 ∷ []) 5
      chained-IsChain refl (omega arith)

filter_remove_with-keep_example :
    (out : GcNodeLink × List Ptr) × (filter_remove_with 4
        (λ p. p == 2)
        (record { next = chained; link_head = some 1 })
      ≡ some out)
    × IsChain out.0.next out.0.link_head (1 ∷ 3 ∷ [])
    × (out.1 ≡ 2 ∷ [])
    × ((q : Ptr) → count q (1 ∷ 2 ∷ 3 ∷ []) ≡ 0 → out.0.next q ≡ chained q)
filter_remove_with-keep_example =
    filter_remove_with-keep 4 (λ p. p == 2) (record { next = chained; link_head = some 1 })
      (1 ∷ 2 ∷ 3 ∷ []) (omega arith) chained-IsChain

pass_loop-keep_example :
    (out : Pass) × (pass_loop 4
        (λ p. p == 2)
        (some 1)
        (record { next = chained; kept = empty; disposed = [] })
      ≡ some out)
    × IsChain out.next out.kept.head (1 ∷ 3 ∷ [])
    × (out.disposed ≡ 2 ∷ [])
pass_loop-keep_example =
    pass_loop-keep 4 (λ p. p == 2) chained (some 1) (1 ∷ 2 ∷ 3 ∷ []) (omega arith) chained-IsChain

split_loop-split_chain_example :
    (out : Halves) × (split_loop 4
        (is_dead sample)
        (some 1)
        (record { next = chained; white = empty; survivors = empty })
      ≡ some out)
    × IsChain out.next out.white.head (split_chain sample 0).1
    × IsChain out.next out.survivors.head (partition_at (split_chain sample 0).0 0).nodes
split_loop-split_chain_example =
    split_loop-split_chain sample 0 chained (some 1) 4 (omega arith) chained-IsChain (omega arith)

-- From node 4 to 2 and 3, from 3 to 1, from 1 to 2: the callback sees the children of a node before
-- the children of these.
traversed : Option Traversal
traversed = traverse 10 sample 4 none

breadth_first :
    elim traversed [ none ↦ [] | some out ↦ out.calls ]
    ≡ (1, some 3) ∷ (2, some 4) ∷ (3, some 4) ∷ (4, none) ∷ []
unfolding traversed traverse trace_node
breadth_first = refl

sample_reached : (p : Ptr) → Leads sample.payload 4 p → p ∈ (4 ∷ 2 ∷ 3 ∷ 1 ∷ [])
sample_reached p here = refl
sample_reached p (step {p = q} r path edge) = ground (
  arith,
  sample_reached q path,
  edge,
  ==_iff 1 q,
  ==_iff 2 q,
  ==_iff 3 q,
  ==_iff 4 q,
  ==_iff 1 r,
  ==_iff 2 r,
  ==_iff 3 r,
)

sample_unvisited : (p : Ptr) → Leads sample.payload 4 p → (sample.mem p).traverse_visited ≡ false
sample_unvisited p path = ground arith

traverse-IsTraversed_example :
    (out : Traversal) × (traverse 10 sample 4 (some 0) ≡ some out)
    × IsTraversed sample 4 (some 0) out
unfolding cost
traverse-IsTraversed_example =
    traverse-IsTraversed sample 4 (some 0) (4 ∷ 2 ∷ 3 ∷ 1 ∷ []) 10 sample_unvisited sample_reached
      (omega arith)
