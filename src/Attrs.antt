-- ===== src/Attrs.antt =====
-- The packed word `attrs` of a node's header (src/node.rs): bits 0-1 the color, bits 2, 3, 5, 6 and 7
-- the flags, bits 8-15 the type id. The methods are functions of the word.
pub mod Digits
pub mod Refines
use gc_lite.Base.{
  ℕ, zero, suc, ◌+◌, ◌-◌, ◌*◌, ◌/◌, ◌^◌, Bool, true, false, not, Option, none, some, bit_and,
  bit_or, ◌==◌, if◌then◌else◌,
}
use gc_lite.Node.{GcTriColor, white, gray, black}

unfoldable pub into_u32 : GcTriColor → ℕ
into_u32 GcTriColor.white = 0
into_u32 GcTriColor.gray = 1
into_u32 GcTriColor.black = 2

-- `none` is the error, on which `color` panics.
unfoldable pub try_from : ℕ → Option GcTriColor
try_from zero = some white
try_from (suc zero) = some gray
try_from (suc (suc zero)) = some black
try_from (suc (suc (suc n))) = none

abbrev pub color_mask : ℕ
color_mask = 0b11

pub data GcNodeFlag : Type 0 where
  arena_alloc gray_listed root local traverse_visited : GcNodeFlag

unfoldable pub bits : GcNodeFlag → ℕ
bits GcNodeFlag.arena_alloc = 4
bits GcNodeFlag.gray_listed = 8
bits GcNodeFlag.root = 32
bits GcNodeFlag.local = 64
bits GcNodeFlag.traverse_visited = 128

-- `!m` of a u32.
unfoldable pub complement : ℕ → ℕ
complement m = 4294967295 - m

unfoldable pub dtype : ℕ → ℕ
dtype attrs = bit_and attrs 0xFF00 / 2 ^ 8

unfoldable pub color : ℕ → Option GcTriColor
unfolding try_from
color attrs = try_from (bit_and attrs color_mask)

unfoldable pub set_color : GcTriColor → ℕ → ℕ
unfolding complement into_u32
set_color c attrs = bit_or (bit_and attrs (complement color_mask)) (into_u32 c)

unfoldable pub insert_flag : GcNodeFlag → ℕ → ℕ
unfolding bits
insert_flag flag attrs = bit_or attrs (bits flag)

unfoldable pub remove_flag : GcNodeFlag → ℕ → ℕ
unfolding bits complement
remove_flag flag attrs = bit_and attrs (complement (bits flag))

unfoldable pub contains_flag : GcNodeFlag → ℕ → Bool
unfolding bits
contains_flag flag attrs = bit_and attrs (bits flag) == bits flag

unfoldable pub is_root : ℕ → Bool
unfolding contains_flag
is_root attrs = contains_flag GcNodeFlag.root attrs

unfoldable pub is_local : ℕ → Bool
unfolding contains_flag
is_local attrs = contains_flag GcNodeFlag.local attrs

unfoldable pub clear_local_flag : ℕ → ℕ
unfolding remove_flag
clear_local_flag attrs = remove_flag GcNodeFlag.local attrs

unfoldable pub is_traverse_visited : ℕ → Bool
unfolding contains_flag
is_traverse_visited attrs = contains_flag GcNodeFlag.traverse_visited attrs

unfoldable pub set_traverse_visited : Bool → ℕ → ℕ
unfolding insert_flag remove_flag
set_traverse_visited visited attrs =
    if visited
    then insert_flag GcNodeFlag.traverse_visited attrs
    else remove_flag GcNodeFlag.traverse_visited attrs

unfoldable pub is_gray_listed : ℕ → Bool
unfolding bits
is_gray_listed attrs = not (bit_and attrs (bits GcNodeFlag.gray_listed) == 0)

unfoldable pub set_gray_listed : Bool → ℕ → ℕ
unfolding bits complement
set_gray_listed b attrs =
    if b
    then bit_or attrs (bits GcNodeFlag.gray_listed)
    else bit_and attrs (complement (bits GcNodeFlag.gray_listed))

-- The word that `alloc_node_mem` writes, with the flag of an arena block or without.
unfoldable pub fresh_attrs : ℕ → Bool → ℕ
unfolding bits
fresh_attrs gc_type arena =
    let attrs = bit_or 0xFF000000 (gc_type * 2 ^ 8) in
    if arena then bit_or attrs (bits GcNodeFlag.arena_alloc) else attrs
