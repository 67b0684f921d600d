-- ===== src/Arena/Room.antt =====
-- Allocation in an arena (src/arena.rs, `alloc`): the block that it gives was free, and is free no more.
use gc_lite.Base.{
  some-inj, ℕ, ◌+◌, ◌*◌, ◌^◌, ◌≤◌, ◌<◌, max, ◌≡◌, refl, ap, subst, Bool, true, false, ◌&&◌, ◌||◌,
  List, arith, Bool-cases, inl, inr, some, leb, ltb, Option-cases,
}
use gc_lite.Arena.{GcArena, min_alloc_size, arena_alloc, bump_offset, alloc_from_free_list}
use gc_lite.Arena.Cover.{free_covers}
use gc_lite.Arena.FirstFit.{inside, Apart, Found, alloc_from_free_list-Found}
use gc_lite.Arena.Rounding.{align_up-Rounded}

-- The blocks of the free list are apart and below the frontier.
pub record IsArena (a : GcArena) : Type 0 where
  pub room : a.bump ≤ a.capacity
  pub apart : Apart a.free_list
  pub below : (y : ℕ) → free_covers a.free_list y ≡ true → inside a.base a.bump y ≡ true

-- The byte at address `y` of the buffer is free.
unfoldable pub is_free : GcArena → ℕ → Bool
unfolding free_covers
is_free a y = free_covers a.free_list y || (leb (a.base + a.bump) y && ltb y (a.base + a.capacity))

-- The block of `needed` bytes at `p` was free in the arena `a`, and in `b` no byte of it is. A block
-- at the frontier is aligned in the buffer.
pub record Allocated (a b : GcArena) (needed align p : ℕ) : Type 0 where
  pub lawful : IsArena b
  pub was_free : (y : ℕ) → inside p needed y ≡ true → is_free a y ≡ true
  pub taken : (y : ℕ) → inside p needed y ≡ true → is_free b y ≡ false
  pub others : (y : ℕ) → is_free b y ≡ true → is_free a y ≡ true
  pub live_count : b.live_count ≡ a.live_count + 1
  pub aligned : a.bump < b.bump → (q : ℕ) × (p ≡ a.base + q * align)

from_bump :
    (a : GcArena) (needed align offset q : ℕ)
    → IsArena a
    → offset ≡ q * align
    → a.bump ≤ offset
    → offset + needed ≤ a.capacity
    → Allocated a
        (record a { bump = offset + needed; live_count = a.live_count + 1 })
        needed
        align
        (a.base + offset)
unfolding is_free
from_bump a needed align offset q v e le fits = record {
  lawful = record { room = fits; apart = v.apart; below = λ y m. ground (arith, v.below y m) };
  was_free = λ y i. ground arith;
  taken = λ y i. ground (arith, v.below y);
  others = λ y m. ground arith;
  live_count = refl;
  aligned = λ lt. (q, ap (λ n. a.base + n) e);
}

from_free_list :
    (a : GcArena) (needed align p : ℕ) (left : List (ℕ × ℕ))
    → IsArena a
    → Found needed a.free_list p left
    → Allocated a (record a { free_list = left; live_count = a.live_count + 1 }) needed align p
unfolding is_free
from_free_list a needed align p left v f = record {
  lawful = record {
    room = v.room;
    apart = f.rest;
    below = λ y m. ground (arith, v.below y, f.split y, m);
  };
  was_free = λ y i. ground (arith, f.split y, f.enough);
  taken = λ y i. ground (arith, f.split y, f.apart y, f.enough, v.below y);
  others = λ y m. ground (arith, f.split y);
  live_count = refl;
  aligned = λ lt. absurd (omega arith);
}

-- `alloc` for an alignment that is a power of two, on an arena whose free blocks are apart and below
-- the frontier, and small enough for 64 bits: where it gives an address, all bytes of the block there
-- were free and are no longer, no other byte became free, the count of live blocks grew by one, and the
-- free blocks are apart and below the frontier again. Where the frontier moved, the address is a multiple
-- of the alignment away from the start of the buffer.
pub arena_alloc-Allocated :
    (a b : GcArena) (size k p : ℕ)
    → IsArena a
    → a.capacity + 2 ^ k ≤ 2 ^ 64
    → arena_alloc a size (2 ^ k) ≡ some (p, b)
    → Allocated a b (max size min_alloc_size) (2 ^ k) p
unfolding arena_alloc bump_offset
arena_alloc-Allocated a b size k p v small e =
    let needed = max size min_alloc_size in
    let offset = bump_offset a (2 ^ k) in
    let r = align_up-Rounded a.bump k (omega (arith, v.room)) in
    elim (Bool-cases (leb (offset + needed) a.capacity)) [
      | inl fits ↦
          subst (λ (x : ℕ × GcArena). Allocated a x.1 needed (2 ^ k) x.0) (some-inj (rw fits at e))
            (from_bump a needed (2 ^ k) offset r.quotient v r.multiple (omega (arith, r.close))
              (ground arith))
      | inr full ↦ elim (Option-cases (alloc_from_free_list needed a.free_list)) [
        | inl none_ ↦ cc (rw (full, none_) at e)
        | inr ((q, left), found) ↦
            subst (λ (x : ℕ × GcArena). Allocated a x.1 needed (2 ^ k) x.0)
              (some-inj (rw (full, found) at e))
              (from_free_list a needed (2 ^ k) q left v
                (alloc_from_free_list-Found needed a.free_list q left v.apart found))
      ]
    ]
