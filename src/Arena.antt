-- ===== src/Arena.antt =====
-- The arena of a partition (src/arena.rs): bump allocation, a free list that sweep rebuilds, and the
-- rewind of the frontier. The free list lives in the dead blocks themselves; here it is the list of
-- its entries, address and size, in the order of the links.
pub mod Cover
pub mod FirstFit
pub mod Rounding
pub mod Room
use gc_lite.Base.{
  ℕ, ◌+◌, ◌-◌, max, List, [], ◌∷◌, ◌++◌, Option, none, some, leb, ◌==◌, if◌then◌else◌,
}
use gc_lite.Gctype.{align_up}

-- Two pointers of eight bytes.
abbrev pub min_alloc_size : ℕ
min_alloc_size = 16

pub record GcArena : Type 0 where
  pub base : ℕ
  pub capacity : ℕ
  pub bump : ℕ
  pub free_list : List (ℕ × ℕ)
  pub live_count : ℕ

pub record Hole : Type 0 where
  pub offset : ℕ
  pub size : ℕ

-- `base` is what the system allocator returned.
unfoldable pub new_arena : (base capacity : ℕ) → GcArena
new_arena base capacity = record {
  base = base;
  capacity = capacity;
  bump = 0;
  free_list = [];
  live_count = 0;
}

-- First fit: the entry found, and the list without it.
unfoldable pub alloc_from_free_list : ℕ → List (ℕ × ℕ) → Option (ℕ × List (ℕ × ℕ))
alloc_from_free_list needed [] = none
alloc_from_free_list needed ((entry, size) ∷ rest) =
    let found = alloc_from_free_list needed rest in
    if leb needed size
    then some (entry, rest)
    else elim found [ none ↦ none | some (p, left) ↦ some (p, (entry, size) ∷ left) ]

-- The frontier rounded up to the alignment, relative to `base`.
unfoldable pub bump_offset : GcArena → ℕ → ℕ
unfolding align_up
bump_offset a align = align_up a.bump align

unfoldable pub arena_alloc : GcArena → (size align : ℕ) → Option (ℕ × GcArena)
unfolding bump_offset alloc_from_free_list
arena_alloc a size align =
    let needed = max size min_alloc_size in
    let offset = bump_offset a align in
    if leb (offset + needed) a.capacity
    then some (a.base + offset, record a { bump = offset + needed; live_count = a.live_count + 1 })
    else elim (alloc_from_free_list needed a.free_list) [
      | none ↦ none
      | some (p, left) ↦ some (p, record a { free_list = left; live_count = a.live_count + 1 })
    ]

-- `saturating_sub` is subtraction on ℕ. New holes stand at the end of the vector.
unfoldable pub collect_hole : GcArena → List Hole → (node node_size : ℕ) → GcArena × List Hole
collect_hole a holes node node_size =
    let actual_size = max node_size min_alloc_size in
    if node + actual_size == a.base + a.bump
    then (record a { bump = node - a.base; live_count = a.live_count - 1 }, holes)
    else (
      record a { live_count = a.live_count - 1 },
      holes ++ (record { offset = node - a.base; size = actual_size }) ∷ [],
    )

-- `sort_by_key`: a stable sort by offset.
unfoldable pub insert_hole : Hole → List Hole → List Hole
insert_hole x [] = x ∷ []
insert_hole x (y ∷ ys) =
    let later = insert_hole x ys in if leb x.offset y.offset then x ∷ y ∷ ys else y ∷ later

unfoldable pub sort_holes : List Hole → List Hole
unfolding insert_hole
sort_holes [] = []
sort_holes (x ∷ xs) = insert_hole x (sort_holes xs)

-- The compaction with two indices: `current` is the entry at the write index.
unfoldable pub merge_from : Hole → List Hole → List Hole
merge_from current [] = current ∷ []
merge_from current (x ∷ xs) =
    let joined = merge_from (record current { size = current.size + x.size }) xs in
    let apart = current ∷ merge_from x xs in
    if current.offset + current.size == x.offset then joined else apart

unfoldable pub merge_holes : List Hole → List Hole
unfolding merge_from
merge_holes [] = []
merge_holes (x ∷ xs) = merge_from x xs

unfoldable pub link_holes : ℕ → List Hole → List (ℕ × ℕ)
link_holes base [] = []
link_holes base (x ∷ xs) = (base + x.offset, x.size) ∷ link_holes base xs

unfoldable pub finish_sweep : GcArena → List Hole → GcArena
unfolding sort_holes merge_holes link_holes
finish_sweep a holes =
    if a.live_count == 0
    then record a { bump = 0; free_list = [] }
    else record a { free_list = link_holes a.base (merge_holes (sort_holes holes)) }
