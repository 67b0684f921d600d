-- ===== src/Tests/Cycles.antt =====
-- A marking cycle of the sample's first partition, in which the user writes a reference.
use gc_lite.Base.{suc, ◌≡◌, refl, true, [], ◌∷◌, arith, ◌∈◌, some, ==_iff, length, subst}
use gc_lite.Node.{Ptr, black, is_root_or_local}
use gc_lite.Heap.{GcHeap, partition_at}
use gc_lite.Mark.{mark, mark_all, seed_partitions, mark_grays, mark_loop, mark_prepare, mark_until}
use gc_lite.Mark.Invariant.{Reach, base, step}
use gc_lite.Mark.Cycle.{region}
use gc_lite.Barrier.{with_write_barrier}
use gc_lite.Barrier.Write.{Attached}
use gc_lite.Barrier.Steps.{Steps, Step}
use gc_lite.Barrier.Safe.{Kept, Steps-sweep_unlink, Steps-mark_until}
use gc_lite.Tests.Sample.{sample, sample-IsReady}

abbrev started : GcHeap
started = mark_prepare sample 0

-- The root is traced.
abbrev traced : GcHeap
traced = (mark started 0 1).1

-- The black root refers to node 3 from now on.
abbrev written : GcHeap
written = with_write_barrier traced 1 (3 ∷ [])

abbrev marked : GcHeap
marked = (mark written 0 9).1

-- What the runs come to.
one : Attached traced 1
unfolding mark_prepare mark mark_grays mark_loop with_write_barrier seed_partitions mark_all
one = refl

three : Attached traced 3
unfolding mark_prepare mark mark_grays mark_loop with_write_barrier seed_partitions mark_all
three = refl

at_one : 1 ∈ (partition_at marked 0).nodes
unfolding mark_prepare mark mark_grays mark_loop with_write_barrier seed_partitions mark_all
at_one = refl

at_three : 3 ∈ (partition_at marked 0).nodes
unfolding mark_prepare mark mark_grays mark_loop with_write_barrier seed_partitions mark_all
at_three = refl

root_one : is_root_or_local (marked.mem 1) ≡ true
unfolding mark_prepare mark mark_grays mark_loop with_write_barrier seed_partitions mark_all
root_one = refl

edge : 3 ∈ marked.payload 1
unfolding mark_prepare mark mark_grays mark_loop with_write_barrier seed_partitions mark_all
edge = refl

drained : (partition_at marked 0).gray_list ≡ []
unfolding mark_prepare mark mark_grays mark_loop with_write_barrier seed_partitions mark_all
drained = refl

chain_length : (partition_at written 0).nodes ≡ 1 ∷ 2 ∷ 3 ∷ []
unfolding mark_prepare mark mark_grays mark_loop with_write_barrier seed_partitions mark_all
chain_length = refl

attached : (q : Ptr) → q ∈ (3 ∷ []) → Attached traced q
attached q e = subst (λ (x : Ptr). Attached traced x) (ground (arith, ==_iff 3 q)) (three)

sample-Steps : Steps 0 started marked
sample-Steps =
    Steps.then_step
      (Steps.then_step (Steps.then_step (Steps.stay started) (Step.marking started 0))
        (Step.write traced 1 (3 ∷ []) one attached))
      (Step.marking written 8)

-- Node 3 is reachable after the write.
reached : Reach (region marked 0) 3
reached = step 3 (base 1 at_one root_one) edge at_three

Steps-sweep_unlink_example : Kept marked 0 3
Steps-sweep_unlink_example =
    Steps-sweep_unlink sample 0 marked 3 sample-IsReady.sound sample-IsReady.idle sample-Steps
      drained reached

Steps-mark_until_example :
    (m : GcHeap) × (mark_until (suc (length (partition_at written 0).nodes)) written 0 ≡ some m)
    × ((partition_at m 0).gray_list ≡ [])
    × ((partition_at m 0).nodes ≡ (partition_at written 0).nodes)
    × (m.payload ≡ written.payload)
    × ((p : Ptr) → Reach (region written 0) p → (m.mem p).color ≡ black)
Steps-mark_until_example =
    Steps-mark_until sample 0 written sample-IsReady.sound sample-IsReady.idle (
      Steps.then_step (Steps.then_step (Steps.stay started) (Step.marking started 0))
        (Step.write traced 1 (3 ∷ []) one attached))
