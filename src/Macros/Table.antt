-- ===== src/Macros/Table.antt =====
-- The table that the macro emits (gc-lite-macros/src/lib.rs, `gc_type_table_internal`).
use gc_lite.Base.{
  ℕ, suc, ◌%◌, Bool, List, [], ◌∷◌, Option, none, some, leb, ltb, ◌==◌, if◌then◌else◌, length,
}
use gc_lite.Gctype.{GcTypeInfo, GcTypeRegistry, payload_offset_of, layout_align_of, layout_size_of}
use gc_lite.Macros.{SynError, SynResult, ok, err}

-- What the compiler says of a payload type.
pub record PayloadType : Type 0 where
  pub size : ℕ
  pub align : ℕ
  pub needs_drop : Bool

abbrev pub Entry : Type 0
Entry = PayloadType × Option ℕ

-- The registry, and the id that each type's `GcNode` has, in the order of the entries.
pub record TypeTable : Type 0 where
  pub registry : GcTypeRegistry
  pub ids : List ℕ

unfoldable pub unwrap_or : ℕ → Option ℕ → ℕ
unwrap_or d none = d
unwrap_or d (some v) = v

-- `sort_unstable`, on numbers, and `dedup`, which drops an element equal to the one before it.
unfoldable pub insert : ℕ → List ℕ → List ℕ
insert x [] = x ∷ []
insert x (y ∷ ys) = let rest = insert x ys in if leb x y then x ∷ y ∷ ys else y ∷ rest

unfoldable pub sort : List ℕ → List ℕ
unfolding insert
sort [] = []
sort (x ∷ xs) = insert x (sort xs)

unfoldable pub dedup_after : ℕ → List ℕ → List ℕ
dedup_after x [] = []
dedup_after x (y ∷ ys) = let rest = dedup_after y ys in if x == y then rest else y ∷ rest

unfoldable pub dedup : List ℕ → List ℕ
unfolding dedup_after
dedup [] = []
dedup (x ∷ xs) = x ∷ dedup_after x xs

module _ (head_size head_align : ℕ) where
  -- The entry of one type; `layout_align_of` and the others are those of src/gctype.rs.
  unfoldable pub type_entry : PayloadType → ℕ → GcTypeInfo
  unfolding payload_offset_of layout_align_of layout_size_of
  type_entry t pass = record {
    size = t.size;
    payload_offset = payload_offset_of head_size t.align;
    layout_size = layout_size_of head_size head_align t.size t.align;
    layout_align = layout_align_of head_align t.align;
    drop_fn = t.needs_drop;
    drop_pass = pass;
  }

  unfoldable pub passes_of : List Entry → List ℕ
  unfolding unwrap_or
  passes_of [] = []
  passes_of ((t, pass) ∷ entries) = unwrap_or 0 pass ∷ passes_of entries

  -- `idx as u8`
  unfoldable pub ids_from : ℕ → List Entry → List ℕ
  ids_from idx [] = []
  ids_from idx (e ∷ entries) = idx % 256 ∷ ids_from (suc idx) entries

  unfoldable pub infos : List Entry → List ℕ → List GcTypeInfo
  unfolding type_entry
  infos [] passes = []
  infos (e ∷ entries) [] = []
  infos ((t, pass) ∷ entries) (p ∷ passes) = type_entry t p ∷ infos entries passes

  unfoldable pub gc_type_table_internal : List Entry → SynResult TypeTable
  unfolding passes_of ids_from infos sort dedup
  gc_type_table_internal entries =
      if ltb 256 (length entries)
      then err SynError.too_many_types
      else (let passes = passes_of entries in
          ok (record {
            registry = record {
              type_info_list = infos entries passes;
              drop_passes = dedup (sort passes);
            };
            ids = ids_from 0 entries;
          }))
