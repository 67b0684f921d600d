-- ===== src/Arena/Cover.antt =====
-- Which bytes of an arena are free: the holes of a sweep, sorted, merged and linked.
use gc_lite.Base.{
  ℕ, ◌+◌, ◌≡◌, ◌<◌, ◌≤◌, refl, ◌∙◌, Bool, false, not, ◌&&◌, ◌||◌, List, [], ◌∷◌, arith, ◌==◌,
  if◌then◌else◌, Bool-cases, inl, inr, subst, leb, ltb,
}
use gc_lite.Arena.{
  GcArena, Hole, insert_hole, sort_holes, merge_from, merge_holes, link_holes, finish_sweep,
}

-- The byte at offset `x` is in a hole.
unfoldable pub covers : List Hole → ℕ → Bool
covers [] x = false
covers (a ∷ hs) x = (leb a.offset x && ltb x (a.offset + a.size)) || covers hs x

-- The byte at address `y` is in a block of the free list.
unfoldable pub free_covers : List (ℕ × ℕ) → ℕ → Bool
free_covers [] y = false
free_covers ((p, size) ∷ l) y = (leb p y && ltb y (p + size)) || free_covers l y

covers-insert_hole :
    (a : Hole) (hs : List Hole) (x : ℕ) → covers (insert_hole a hs) x ≡ covers (a ∷ hs) x
unfolding covers insert_hole
covers-insert_hole a [] x = refl
covers-insert_hole a (b ∷ hs) x = ground (arith, covers-insert_hole a hs x)

covers-sort_holes : (hs : List Hole) (x : ℕ) → covers (sort_holes hs) x ≡ covers hs x
unfolding covers sort_holes
covers-sort_holes [] x = refl
covers-sort_holes (a ∷ hs) x =
    ground (arith, covers-insert_hole a (sort_holes hs) x, covers-sort_holes hs x)

covers-merge_from :
    (c : Hole) (hs : List Hole) (x : ℕ) → covers (merge_from c hs) x ≡ covers (c ∷ hs) x
unfolding covers merge_from
covers-merge_from c [] x = refl
covers-merge_from c (a ∷ hs) x =
    ground (
      arith,
      covers-merge_from (record c { size = c.size + a.size }) hs x,
      covers-merge_from a hs x,
    )

covers-merge_holes : (hs : List Hole) (x : ℕ) → covers (merge_holes hs) x ≡ covers hs x
unfolding covers merge_holes
covers-merge_holes [] x = refl
covers-merge_holes (a ∷ hs) x = covers-merge_from a hs x

free_covers-link_holes :
    (base : ℕ) (hs : List Hole) (x : ℕ) → free_covers (link_holes base hs) (base + x) ≡ covers hs x
unfolding covers free_covers link_holes
free_covers-link_holes base [] x = refl
free_covers-link_holes base (a ∷ hs) x = ground (arith, free_covers-link_holes base hs x)

-- After `finish_sweep` a byte of the arena is in the free list exactly where a living block is left
-- and a hole of the sweep covers the byte, whatever the order of the holes; where no block is left
-- the frontier is back at the start, and else it is where it was.
pub finish_sweep-covers :
    (a : GcArena) (holes : List Hole) (x : ℕ)
    → (free_covers (finish_sweep a holes).free_list (a.base + x)
        ≡ (not (a.live_count == 0) && covers holes x))
      × ((finish_sweep a holes).bump ≡ (if a.live_count == 0 then 0 else a.bump))
unfolding finish_sweep free_covers
finish_sweep-covers a holes x = elim (Bool-cases (a.live_count == 0)) [
  | inl empty ↦ rw (empty, finish_sweep) (refl, refl)
  | inr some_ ↦
      rw (some_, finish_sweep)
        (
          free_covers-link_holes a.base (merge_holes (sort_holes holes)) x
              ∙ covers-merge_holes (sort_holes holes) x
              ∙ covers-sort_holes holes x,
          refl,
        )
]

-- Holes in the order of their addresses, each behind the last, or with a gap to it.
unfoldable pub Ordered : List Hole → Type 0
Ordered [] = Unit
Ordered (a ∷ []) = Unit
Ordered (a ∷ b ∷ hs) = (a.offset + a.size ≤ b.offset) × Ordered (b ∷ hs)

unfoldable pub Separated : List Hole → Type 0
Separated [] = Unit
Separated (a ∷ []) = Unit
Separated (a ∷ b ∷ hs) = (a.offset + a.size < b.offset) × Separated (b ∷ hs)

-- What `merge_from` starts with is where it started.
merge_from-head :
    (c : Hole) (hs : List Hole)
    → (b : Hole) × (rest : List Hole) × (merge_from c hs ≡ b ∷ rest) × (b.offset ≡ c.offset)
unfolding merge_from
merge_from-head c [] = (c, [], refl, refl)
merge_from-head c (a ∷ hs) = elim (Bool-cases (c.offset + c.size == a.offset)) [
  | inl joined ↦ rw joined (merge_from-head (record c { size = c.size + a.size }) hs)
  | inr apart ↦ rw apart (c, merge_from a hs, refl, refl)
]

Ordered-join :
    (c a : Hole) (hs : List Hole)
    → c.offset + c.size ≡ a.offset
    → Ordered (a ∷ hs)
    → Ordered (record c { size = c.size + a.size } ∷ hs)
unfolding Ordered
Ordered-join c a [] e o = tt
Ordered-join c a (b ∷ hs) e (le, o) = (omega arith, o)

merge_from-Separated : (c : Hole) (hs : List Hole) → Ordered (c ∷ hs) → Separated (merge_from c hs)
unfolding merge_from Ordered Separated
merge_from-Separated c [] o = tt
merge_from-Separated c (a ∷ hs) (le, o) = elim (Bool-cases (c.offset + c.size == a.offset)) [
  | inl joined ↦ rw joined (
      merge_from-Separated (record c { size = c.size + a.size }) hs
        (Ordered-join c a hs (ground arith) o))
  | inr apart ↦
      let (b, rest, e, at) = merge_from-head a hs in
      rw apart (rw e (ground (arith, at), subst (λ l. Separated l) e (merge_from-Separated a hs o)))
]

-- How many bytes the holes have together.
unfoldable pub bytes : List Hole → ℕ
bytes [] = 0
bytes (a ∷ hs) = a.size + bytes hs

bytes-merge_from : (c : Hole) (hs : List Hole) → bytes (merge_from c hs) ≡ c.size + bytes hs
unfolding merge_from bytes
bytes-merge_from c [] = refl
bytes-merge_from c (a ∷ hs) =
    ground (arith, bytes-merge_from (record c { size = c.size + a.size }) hs, bytes-merge_from a hs)

-- Holes in order are merged until no two touch. The merged holes cover the same bytes as the holes
-- before, no byte more and none less, and have as many bytes together.
pub merge_holes-Separated :
    (hs : List Hole)
    → Ordered hs
    → Separated (merge_holes hs)
      × ((x : ℕ) → covers (merge_holes hs) x ≡ covers hs x)
      × (bytes (merge_holes hs) ≡ bytes hs)
unfolding merge_holes Separated bytes
merge_holes-Separated [] o = (tt, λ x. refl, refl)
merge_holes-Separated (c ∷ hs) o =
    (merge_from-Separated c hs o, covers-merge_holes (c ∷ hs), bytes-merge_from c hs)
