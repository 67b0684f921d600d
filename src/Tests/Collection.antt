-- ===== src/Tests/Collection.antt =====
-- The collection of the sample's first partition.
use gc_lite.Base.{
  true, ◌||◌, ◌==◌, if◌then◌else◌, ℕ, ◌+◌, ◌≡◌, ◌≢◌, ◌↔◌, refl, false, not, ◌&&◌, [], ◌∷◌, arith,
  contains, ◌∈◌, ◌∉◌, none, ==_iff, keep,
}
use gc_lite.Node.{black, Ptr}
use gc_lite.Heap.{GcHeap, partition_at}
use gc_lite.Weak.{index, is_null, upgrade}
use gc_lite.Mark.Invariant.{Reach, base, step}
use gc_lite.Mark.Cycle.{region, IsIdle}
use gc_lite.Sweep.{drop_pass, sweep_all}
use gc_lite.Sweep.Single.{sweep, sweep_link}
use gc_lite.Sweep.Deprecated.{Same, sweep-sweep_all}
use gc_lite.Sweep.Result.{needs_drop}
use gc_lite.Sweep.Accounts.{IsAccounted}
use gc_lite.Sweep.Collect.{
  Collects, chain, garbage_collect-Reach, garbage_collect-freed_bytes, garbage_collect-dropped,
  garbage_collect-upgrade, garbage_collect-chains,
}
use gc_lite.Sweep.Dangling.{garbage_collect-dangles}
use gc_lite.Tests.Sample.{sample, sample_mem, sample_partition, sample-IsReady}

garbage_collect-Reach_example :
    Collects (λ c. (p : Ptr) → (p ∈ chain c 0) ↔ Reach (region sample 0) p) sample 0
garbage_collect-Reach_example = garbage_collect-Reach sample 0 sample-IsReady

garbage_collect-freed_bytes_example :
    Collects
      (λ c.
        (c.freed_bytes + (partition_at c.heap 0).memory_used ≡ 96)
        × (c.freed_bytes + c.heap.total_memory_used ≡ 128)
        × IsAccounted c.heap)
      sample
      0
garbage_collect-freed_bytes_example = garbage_collect-freed_bytes sample 0 sample-IsReady

garbage_collect-dropped_example :
    Collects
      (λ c.
        c.dropped
        ≡ keep (λ p. not (contains (chain c 0) p) && needs_drop sample p) (1 ∷ 2 ∷ 3 ∷ []))
      sample
      0
garbage_collect-dropped_example = garbage_collect-dropped sample 0 sample-IsReady

garbage_collect-chains_example :
    Collects
      (λ c.
        (chain c 0 ≡ keep (contains (chain c 0)) (1 ∷ 2 ∷ 3 ∷ []))
        × ((j : ℕ) → j ≢ 0 → chain c j ≡ (partition_at sample j).nodes)
        × IsIdle c.heap 0)
      sample
      0
garbage_collect-chains_example = garbage_collect-chains sample 0 sample-IsReady

reached_sample : (p : Ptr) → Reach (region sample 0) p → p ∈ (1 ∷ 2 ∷ [])
reached_sample p (base q i e) = ground arith
reached_sample p (step {p = o} q w e i) = ground (arith, reached_sample o w, ==_iff 1 o, ==_iff 2 o)

unreached : ¬ Reach (region sample 0) 3
unreached w = cc (reached_sample 3 w)

garbage_collect-dangles_example :
    Collects (λ c. (3 ∉ chain c 0) × (4 ∈ chain c 1) × (3 ∈ c.heap.payload 4)) sample 0
garbage_collect-dangles_example =
    garbage_collect-dangles sample 0 1 4 3 sample-IsReady (omega arith) refl refl unreached

weak_3 : is_null (sample.mem 3).weak_id ≡ false
unfolding is_null
weak_3 = refl

same_slot : index 7 ≡ index (sample.mem 3).weak_id
unfolding index
same_slot = refl

garbage_collect-upgrade_example : Collects (λ c. upgrade c.heap 7 ≡ none) sample 0
garbage_collect-upgrade_example =
    garbage_collect-upgrade sample 0 sample-IsReady 3 7 refl unreached weak_3 same_slot

-- The sample when the marking of its first partition is over.
abbrev marked_sample : GcHeap
marked_sample = record sample {
  partitions =
      record (sample_partition (1 ∷ 2 ∷ 3 ∷ []) 96) { marking = true }
      ∷ sample_partition (4 ∷ []) 32
      ∷ [];
  mem = λ p. if p == 1 || p == 2 then record (sample_mem p) { color = black } else sample_mem p;
}

sample_covered : (n : Ptr) → n ∈ (1 ∷ 2 ∷ 3 ∷ []) → drop_pass marked_sample n ∈ (0 ∷ [])
sample_covered n m = ground arith

-- Node 3 is dead; both sweeps take it out.
swept_in_place : (sweep marked_sample 0).freed_bytes ≡ 32
unfolding sweep sweep_link
swept_in_place = refl

sweep-sweep_all_example : Same (sweep marked_sample 0) (sweep_all marked_sample 0)
sweep-sweep_all_example = sweep-sweep_all marked_sample 0 sample_covered
