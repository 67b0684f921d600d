-- ===== src/Gctype.antt =====
-- The static type table (src/gctype.rs).
use gc_lite.Base.{ℕ, ◌+◌, ◌-◌, ◌%◌, ◌^◌, Bool, false, List, bit_and, ltb, if◌then◌else◌, get_or}

-- `usize` has 64 bits: the complement of a mask, and the sum that wraps.
abbrev pub not_usize : ℕ → ℕ
not_usize m = 2 ^ 64 - 1 - m

unfoldable pub align_up : ℕ → ℕ → ℕ
align_up value align = let mask = align - 1 in bit_and ((value + mask) % 2 ^ 64) (not_usize mask)

-- `size_of` and `align_of` of `GcHead` and of the payload type come from the compiler.
unfoldable pub payload_offset_of : (head_size align : ℕ) → ℕ
unfolding align_up
payload_offset_of head_size align = align_up head_size align

unfoldable pub layout_align_of : (head_align payload_align : ℕ) → ℕ
layout_align_of head_align payload_align =
    if ltb payload_align head_align then head_align else payload_align

unfoldable pub layout_size_of : (head_size head_align size align : ℕ) → ℕ
unfolding align_up payload_offset_of layout_align_of
layout_size_of head_size head_align size align =
    align_up (payload_offset_of head_size align + size) (layout_align_of head_align align)

-- `drop_fn` says whether the type has one.
pub record GcTypeInfo : Type 0 where
  pub size : ℕ
  pub payload_offset : ℕ
  pub layout_size : ℕ
  pub layout_align : ℕ
  pub drop_fn : Bool
  pub drop_pass : ℕ

pub record GcTypeRegistry : Type 0 where
  pub type_info_list : List GcTypeInfo
  pub drop_passes : List ℕ

-- What an index past the table would read: the program panics there.
abbrev pub no_type : GcTypeInfo
no_type = record {
  size = 0;
  payload_offset = 0;
  layout_size = 0;
  layout_align = 1;
  drop_fn = false;
  drop_pass = 0;
}

abbrev pub type_info : GcTypeRegistry → ℕ → GcTypeInfo
type_info r dtype = get_or r.type_info_list dtype no_type
