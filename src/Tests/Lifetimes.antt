-- ===== src/Tests/Lifetimes.antt =====
-- The sample when its heap is dropped.
use gc_lite.Base.{◌≡◌, refl, [], ◌∷◌, arith, keep, count, ◌∈◌}
use gc_lite.Node.{Ptr}
use gc_lite.Sweep.{drop_pass}
use gc_lite.Sweep.Result.{needs_drop}
use gc_lite.Lifetime.{chains_of, drop_heap}
use gc_lite.Lifetime.Release.{flat}
use gc_lite.Lifetime.Dropped.{drop_heap-living}
use gc_lite.Tests.Sample.{sample}

chained : flat (chains_of sample.partitions) ≡ 1 ∷ 2 ∷ 3 ∷ 4 ∷ []
unfolding flat chains_of
chained = refl

covered :
    (n : Ptr)
    → n ∈ flat (chains_of sample.partitions)
    → drop_pass sample n ∈ sample.node_dtypes.drop_passes
covered n m = ground arith

listed : (n : Ptr) → n ∈ sample.dbg_living_nodes → n ∈ flat (chains_of sample.partitions)
listed n m = rw chained (ground arith)

drop_heap-living_example :
    ((drop_heap sample).heap.dbg_living_nodes ≡ [])
    × ((q : Ptr)
        → count q (drop_heap sample).dropped
          ≡ count q (keep (needs_drop sample) (flat (chains_of sample.partitions))))
drop_heap-living_example = drop_heap-living sample covered listed
