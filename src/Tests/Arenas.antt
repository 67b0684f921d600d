-- ===== src/Tests/Arenas.antt =====
-- An arena of 256 bytes with two free blocks below its frontier.
use gc_lite.Base.{ℕ, ◌+◌, ◌≡◌, refl, [], ◌∷◌, arith, some}
use gc_lite.Gctype.{align_up}
use gc_lite.Arena.{GcArena, arena_alloc, bump_offset, alloc_from_free_list}
use gc_lite.Arena.Cover.{free_covers}
use gc_lite.Arena.FirstFit.{Apart}
use gc_lite.Arena.Room.{IsArena, Allocated, arena_alloc-Allocated}

abbrev small_arena : ℕ → ℕ → GcArena
small_arena bump live_count = record {
  base = 4096;
  capacity = 256;
  bump = bump;
  free_list = (4112, 16) ∷ (4144, 48) ∷ [];
  live_count = live_count;
}

small_arena-IsArena : IsArena (small_arena 100 2)
unfolding Apart free_covers
small_arena-IsArena = record {
  room = omega arith;
  apart = (λ y i. ground arith, (λ y i. refl, tt));
  below = λ y m. ground arith;
}

at_frontier : arena_alloc (small_arena 100 2) 24 8 ≡ some (4096 + 104, small_arena 128 3)
unfolding arena_alloc bump_offset align_up alloc_from_free_list
at_frontier = refl

arena_alloc-Allocated_example : Allocated (small_arena 100 2) (small_arena 128 3) 24 8 (4096 + 104)
arena_alloc-Allocated_example =
    arena_alloc-Allocated (small_arena 100 2) (small_arena 128 3) 24 3 (4096 + 104)
      small_arena-IsArena (omega arith) at_frontier
