-- ===== src/Tests/Parts.antt =====
-- Weak ids, scopes, arenas, allocation, limits and removal at small inputs.
use gc_lite.Base.{
  count, ℕ, zero, suc, ◌+◌, ◌^◌, ◌≡◌, ◌≢◌, ◌<◌, ◌≤◌, refl, true, false, ◌||◌, List, [], ◌∷◌, arith,
  Option, some, none, ==_iff, length, leb, ◌==◌, if◌then◌else◌, get_elem?, contains, not, ◌&&◌,
}
use gc_lite.Node.{Ptr}
use gc_lite.Arena.{GcArena, Hole, finish_sweep, alloc_from_free_list, merge_holes}
use gc_lite.Arena.Cover.{
  covers, free_covers, Ordered, Separated, finish_sweep-covers, merge_holes-Separated, bytes,
}
use gc_lite.Arena.FirstFit.{
  Apart, Found, TooSmall, alloc_from_free_list-Found, alloc_from_free_list-none,
}
use gc_lite.Heap.{GcHeap, GcScopeState, partition_at}
use gc_lite.Weak.{index, version, is_null, new_weak, downgrade, upgrade, take_slot}
use gc_lite.Weak.Slots.{new_weak-index-version}
use gc_lite.Weak.Versions.{reused, next_version-reused}
use gc_lite.Weak.Handles.{IsWeak}
use gc_lite.Weak.Downgrade.{downgrade-upgrade, downgrade-upgrade_other}
use gc_lite.Scope.{new_scope, drop_scope, promote_node_to, cached, clear, protect_nodes}
use gc_lite.Scope.Protect.{new_scope-drop_scope}
use gc_lite.Scope.Nesting.{clear_lem, unlocal_head}
use gc_lite.Scope.Promote.{promote_node_to-count, uncached}
use gc_lite.Mem.{GcResult, ok, alloc_raw}
use gc_lite.Mem.Limit.{alloc_raw-memory_limit}
use gc_lite.Limits.{set_memory_limit, set_memory_limit-bounds, is_adjusted}
use gc_lite.Partition.{dealloc_partition}
use gc_lite.Partition.Removal.{dealloc_partition-IsAccounted}
use gc_lite.Sweep.Accounts.{IsAccounted}
use gc_lite.Mark.Cycle.{IsIdle}
use gc_lite.Sweep.Dispose.{slot_free_at, any_hits}
use gc_lite.Tests.Sample.{sample, sample-IsReady}

new_weak-index-version_example : (index (new_weak 5 9) ≡ 5) × (version (new_weak 5 9) ≡ 9)
new_weak-index-version_example = new_weak-index-version 5 9 (omega arith) (omega arith)

versions_at : (i v : ℕ) (o : Option Ptr) → get_elem? sample.weak_slots i ≡ some (v, o) → v < 2 ^ 8
versions_at zero v o e = ground arith
versions_at (suc i) v o e = cc

sample-IsWeak : IsWeak sample
unfolding is_null index version
sample-IsWeak = record {
  versions = λ i v o e. versions_at i v o e;
  handles = λ p m named. ground (arith, ==_iff 3 p);
}

-- Node 2 gets slot 1 under version 1.
abbrev downgraded : GcHeap
downgraded = (take_slot sample 2).0

took : downgrade sample 2 ≡ some (downgraded, 257)
unfolding downgrade take_slot
took = refl

downgrade-upgrade_example : (upgrade downgraded 257 ≡ some 2) × IsWeak downgraded
downgrade-upgrade_example = downgrade-upgrade sample 2 downgraded 257 sample-IsWeak refl took

upgrade_3 : upgrade sample 1 ≡ some 3
unfolding upgrade
upgrade_3 = refl

downgrade-upgrade_other_example : upgrade downgraded 1 ≡ some 3
downgrade-upgrade_other_example =
    downgrade-upgrade_other sample 2 downgraded 257 1 3 sample-IsWeak refl took upgrade_3

abbrev scoped : GcHeap
scoped = record sample { scope_stacks = record { list = []; partition = some 0 } ∷ [] }

abbrev entered : GcScopeState
entered = record { partition_id = 0; stack_id = 0; depth = 1; cache = none }

abbrev inner : GcHeap
inner = record sample { scope_stacks = record { list = entered ∷ []; partition = some 0 } ∷ [] }

in_scoped : 0 < length scoped.scope_stacks
in_scoped = omega arith

opens : new_scope scoped 0 ≡ some inner
unfolding new_scope
opens = refl

new_scope-drop_scope_example :
    let within = protect_nodes inner 0 (2 ∷ 1 ∷ []) in
    let after = drop_scope within 0 in
    ((q : Ptr)
      → (within.mem q).local
        ≡ ((scoped.mem q).local || (contains (2 ∷ 1 ∷ []) q && not (scoped.mem q).root)))
    × ((q : Ptr) → (after.mem q).local ≡ (scoped.mem q).local)
    × ((q : Ptr) → (after.mem q).root ≡ (scoped.mem q).root)
    × (after.scope_stacks ≡ record { list = []; partition = some 0 } ∷ [])
new_scope-drop_scope_example = new_scope-drop_scope scoped 0 inner (2 ∷ 1 ∷ []) in_scoped opens

abbrev holding : List Ptr → GcScopeState
holding ns = record { partition_id = 0; stack_id = 0; depth = 1; cache = some ns }

clear_lem_example :
    ((q : Ptr) → (clear sample (holding (2 ∷ []))).0.mem q ≡ unlocal_head (2 ∷ []) q (sample.mem q))
    × ((clear sample (holding (2 ∷ []))).0.partitions ≡ sample.partitions)
    × ((clear sample (holding (2 ∷ []))).0.scope_stacks ≡ sample.scope_stacks)
    × ((clear sample (holding (2 ∷ []))).0.weak_slots ≡ sample.weak_slots)
    × ((clear sample (holding (2 ∷ []))).1.cache ≡ none)
clear_lem_example = clear_lem sample (holding (2 ∷ []))

-- A scope at address 0 and its parent at address 1.
abbrev nested : Ptr → GcScopeState
nested a = if a == 0 then holding (1 ∷ 2 ∷ 3 ∷ []) else holding []

promote_node_to-count_example :
    let r = promote_node_to nested 0 1 1 in
    (r.0 ≡ true)
    × ((a : Ptr) (q : Ptr)
        → count q (cached (r.1 a)) + (if true && a == 0 && 1 == q then 1 else 0)
          ≡ count q (cached (nested a)) + (if true && a == 1 && 1 == q then 1 else 0))
    × ((a : Ptr) → uncached (r.1 a) ≡ uncached (nested a))
promote_node_to-count_example = promote_node_to-count nested 0 1 1

abbrev arena : GcArena
arena = record { base = 4096; capacity = 256; bump = 96; free_list = []; live_count = 1 }

abbrev holes : List Hole
holes = record { offset = 16; size = 16 } ∷ record { offset = 32; size = 16 } ∷ []

finish_sweep-covers_example :
    (free_covers (finish_sweep arena holes).free_list (4096 + 40) ≡ true)
    × ((finish_sweep arena holes).bump ≡ 96)
unfolding covers
finish_sweep-covers_example = finish_sweep-covers arena holes 40

ordered : Ordered holes
unfolding Ordered
ordered = (omega arith, tt)

merge_holes-Separated_example :
    Separated (merge_holes holes)
    × ((x : ℕ) → covers (merge_holes holes) x ≡ covers holes x)
    × (bytes (merge_holes holes) ≡ 32)
unfolding bytes
merge_holes-Separated_example = merge_holes-Separated holes ordered

abbrev blocks : List (ℕ × ℕ)
blocks = (4112, 16) ∷ (4144, 48) ∷ []

blocks-Apart : Apart blocks
unfolding Apart free_covers
blocks-Apart = (λ y i. ground arith, (λ y i. refl, tt))

taken : alloc_from_free_list 32 blocks ≡ some (4144, (4112, 16) ∷ [])
unfolding alloc_from_free_list
taken = refl

none_left : alloc_from_free_list 64 blocks ≡ none
unfolding alloc_from_free_list
none_left = refl

alloc_from_free_list-Found_example : Found 32 blocks 4144 ((4112, 16) ∷ [])
alloc_from_free_list-Found_example =
    alloc_from_free_list-Found 32 blocks 4144 ((4112, 16) ∷ []) blocks-Apart taken

alloc_from_free_list-none_example : TooSmall 64 blocks
alloc_from_free_list-none_example = alloc_from_free_list-none 64 blocks none_left

abbrev allocated : GcHeap × Ptr
allocated = elim (alloc_raw (some 9) (λ info. true) sample 0 0 []) as (λ x. GcHeap × Ptr) [
  | GcResult.ok r ↦ r
  | GcResult.err e ↦ (sample, 0)
]

succeeds : alloc_raw (some 9) (λ info. true) sample 0 0 [] ≡ ok (allocated.0, allocated.1)
unfolding alloc_raw
succeeds = refl

alloc_raw-memory_limit_example :
    (allocated.0.total_memory_used ≡ 128 + 32)
    × ((0 == 0 || leb allocated.0.total_memory_used 0) ≡ true)
    × ((partition_at allocated.0 0).nodes ≡ allocated.1 ∷ 1 ∷ 2 ∷ 3 ∷ [])
alloc_raw-memory_limit_example =
    alloc_raw-memory_limit (some 9) (λ info. true) sample 0 0 [] allocated.0 allocated.1
      (omega arith) succeeds

abbrev eager : GcHeap
eager = record sample { gc_threshold = 500 }

abbrev requested : ℕ
requested = 100

set_memory_limit-bounds_example :
    let r = set_memory_limit 48 eager requested in
    (requested ≤ r.0.memory_limit)
    × (128 ≤ r.0.memory_limit)
    × ((r.0.memory_limit == requested || r.0.memory_limit == 128) ≡ true)
    × (r.1 ≡ r.0.memory_limit)
    × (is_adjusted 48 r.0.memory_limit 500 r.0.gc_threshold ≡ true)
set_memory_limit-bounds_example = set_memory_limit-bounds 48 eager requested (omega arith)

abbrev limited : GcHeap
limited = record sample { memory_limit = 100 }

dealloc_partition-IsAccounted_example :
    let r = dealloc_partition 0 sample 0 (1 ∷ 2 ∷ 3 ∷ []) in
    (r.1 ≡ 96)
    × (r.1 + r.0.total_memory_used ≡ 128)
    × ((partition_at r.0 0).nodes ≡ [])
    × IsIdle r.0 0
    × ((partition_at r.0 0).arena ≡ none)
    × ((j : ℕ) → (0 == j) ≡ false → partition_at r.0 j ≡ partition_at sample j)
    × ((q : Ptr)
        → contains r.0.dbg_living_nodes q
          ≡ (contains (4 ∷ 3 ∷ 2 ∷ 1 ∷ []) q && not (contains (1 ∷ 2 ∷ 3 ∷ []) q)))
    × ((i : ℕ)
        → slot_free_at r.0 i ≡ (slot_free_at sample i || any_hits sample.mem (1 ∷ 2 ∷ 3 ∷ []) i))
    × IsAccounted r.0
dealloc_partition-IsAccounted_example =
    dealloc_partition-IsAccounted 0 sample 0 (omega arith) sample-IsReady.accounted

next_version-reused_example : (reused 4 7 ≢ 7) × (reused 255 7 ≡ 7)
next_version-reused_example = next_version-reused 7 3 (omega arith) (omega arith) (omega arith)
