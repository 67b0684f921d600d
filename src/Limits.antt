-- ===== src/Limits.antt =====
-- The memory limit and the threshold of automatic collection (src/heap.rs). The least threshold is a
-- constant that the compiler computes from the size of a header, an argument here.
use gc_lite.Base.{
  ℕ, ◌+◌, ◌-◌, ◌*◌, ◌/◌, ◌^◌, ◌≡◌, ◌<◌, ◌≤◌, Bool, true, ◌&&◌, ◌||◌, arith, ltb, leb, ◌==◌,
  if◌then◌else◌, max, min,
}
use gc_lite.Heap.{GcHeap}

-- `applied - (applied >> 2)`, at least the least threshold.
unfoldable pub adjusted_threshold : (min_gc_threshold applied : ℕ) → ℕ
adjusted_threshold min_gc_threshold applied = max (applied - applied / 4) min_gc_threshold

unfoldable pub set_memory_limit : ℕ → GcHeap → ℕ → GcHeap × ℕ
unfolding adjusted_threshold
set_memory_limit min_gc_threshold h limit =
    let applied = max h.total_memory_used limit in
    if limit == 0 then (record h { memory_limit = 0 }, 0) else (
      record h {
        memory_limit = applied;
        gc_threshold =
            if ltb 0 h.gc_threshold && leb applied h.gc_threshold
            then adjusted_threshold min_gc_threshold applied
            else h.gc_threshold;
      },
      applied,
    )

-- `saturating_mul(8)` on 64 bits, then `saturating_div(10)`.
unfoldable pub capped : ℕ → ℕ
capped memory_limit = min (memory_limit * 8) (2 ^ 64 - 1) / 10

unfoldable pub set_gc_threshold : GcHeap → ℕ → GcHeap × ℕ
unfolding capped
set_gc_threshold h threshold =
    let applied =
      if ltb 0 threshold && ltb 0 h.memory_limit
      then min threshold (capped h.memory_limit)
      else threshold in
    (record h { gc_threshold = applied }, applied)

unfoldable pub should_gc : GcHeap → Bool
should_gc h = ltb 0 h.gc_threshold && leb h.gc_threshold h.total_memory_used

-- Where the threshold `before` reaches the limit, the threshold `t` is three quarters of the limit,
-- rounded up, or the least threshold if that is more; else it is `before`.
abbrev pub is_adjusted : (least limit before t : ℕ) → Bool
is_adjusted least limit before t =
    if leb limit before
    then leb least t && leb (3 * limit) (4 * t) && (leb t least || ltb (4 * t) (3 * limit + 4))
    else t == before

-- `set_memory_limit` with a limit that is not 0 sets the least limit that is at least what was asked
-- for and at least the memory in use, and gives it back. A threshold that reaches this limit becomes
-- three quarters of it, rounded up, or the least threshold if that is more; any other threshold, 0
-- included, stays as it is.
pub set_memory_limit-bounds :
    (min_gc_threshold : ℕ) (h : GcHeap) (limit : ℕ)
    → 0 < limit
    → let r = set_memory_limit min_gc_threshold h limit in
      let g = r.0 in
      (limit ≤ g.memory_limit)
      × (h.total_memory_used ≤ g.memory_limit)
      × ((g.memory_limit == limit || g.memory_limit == h.total_memory_used) ≡ true)
      × (r.1 ≡ g.memory_limit)
      × (is_adjusted min_gc_threshold g.memory_limit h.gc_threshold g.gc_threshold ≡ true)
unfolding set_memory_limit adjusted_threshold
set_memory_limit-bounds m h limit lt =
    (ground arith, ground arith, ground arith, ground arith, ground arith)
