-- ===== src/Tests/Derived.antt =====
-- Payloads, type tables and derived trace functions at small inputs.
use gc_lite.Base.{
  ℕ, zero, suc, ◌^◌, ◌≤◌, ◌<◌, ◌≡◌, ◌↔◌, ◌⊎◌, refl, Bool, true, false, List, [], ◌∷◌, none, some,
  ◌∈◌, arith, ◌==◌, length, get_elem?,
}
use gc_lite.Node.{Ptr}
use gc_lite.Gctype.{layout_size_of}
use gc_lite.Payload.{Ty, El, gc_children, resolve}
use gc_lite.Payload.Holds.{Holds, resolve-Holds}
use gc_lite.Payload.Once.{unique, gc_children-Holds}
use gc_lite.Macros.{SynError, SynResult, ok, err, syntax}
use gc_lite.Macros.Parse.{Key, Syn, IsSyn, TypeTableInput, parse, passes_small, parse-passes_small}
use gc_lite.Macros.Table.{Entry, TypeTable, gc_type_table_internal}
use gc_lite.Macros.Registry.{IsTable, gc_type_table_internal-IsTable}
use gc_lite.Macros.Derive.{
  PathName, Meta, Attribute, Field, Fields, Variant, Data, GenericParam, DeriveInput, field_kind,
  Member, Stmt, Arm, binds, ignores, struct_stmts, variant_arms, expand_gc_trace,
}
use gc_lite.Macros.Body.{fields_of_self, fields_of_pattern}
use gc_lite.Macros.Effect.{run_stmts, AnyHeld, IsArm, struct_stmts-AnyHeld, variant_arms-AnyHeld}
use gc_lite.Macros.Accepts.{is_ok, accepts, expand_gc_trace-accepts}

-- A vector of references and an optional one.
abbrev payload_type : Ty
payload_type = Ty.tuple (Ty.vec Ty.gc_ref) (Ty.option Ty.gc_ref)

abbrev payload_value : El payload_type
unfolding El
payload_value = (1 ∷ 2 ∷ 1 ∷ [], some 3)

gc_children-Holds_example :
    ((p : Ptr) → (p ∈ gc_children payload_type payload_value) ↔ Holds payload_type payload_value p)
    × (unique (gc_children payload_type payload_value) ≡ true)
gc_children-Holds_example = gc_children-Holds payload_type payload_value

-- A stream of numbers: 0 is a semicolon, 1 a comma, 2 an equals sign, 10 and 11 the two keys.
abbrev take_any : List ℕ → SynResult (ℕ × List ℕ)
take_any [] = err (syntax 0)
take_any (t ∷ ts) = ok (t, ts)

abbrev take : ℕ → List ℕ → SynResult (List ℕ)
take t [] = err (syntax 0)
take t (x ∷ xs) = elim (x == t) [ true ↦ ok xs | false ↦ err (syntax 0) ]

abbrev toy_key : ℕ → Key → Bool
toy_key t Key.crate_path = t == 10
toy_key t Key.drop_pass = t == 11

abbrev toy_empty : List ℕ → Bool
toy_empty [] = true
toy_empty (t ∷ ts) = false

abbrev toy_comma : List ℕ → Bool
toy_comma [] = false
toy_comma (t ∷ ts) = t == 1

abbrev toy : Syn
toy = record {
  Stream = List ℕ;
  Ident = ℕ;
  CratePath = ℕ;
  TypeName = ℕ;
  LitInt = ℕ;
  is_empty = toy_empty;
  peek_comma = toy_comma;
  ident_is = toy_key;
  parse_ident = take_any;
  parse_path = take_any;
  parse_type = take_any;
  parse_lit = take_any;
  parse_eq = take 2;
  parse_comma = take 1;
  parse_semi = take 0;
  base10_parse_u8 = λ n. ok n;
}

take_any_rest : (s : List ℕ) (r : ℕ × List ℕ) → take_any s ≡ ok r → length r.1 ≤ length s
take_any_rest [] r e = absurd cc
take_any_rest (t ∷ ts) r e = ground (arith, e)

take_rest : (t : ℕ) (s r : List ℕ) → take t s ≡ ok r → length r < length s
take_rest t [] r e = absurd cc
take_rest t (x ∷ xs) r e = ground (arith, e)

toy-IsSyn : IsSyn toy
toy-IsSyn = record {
  size = length;
  ident_rest = take_any_rest;
  path_rest = take_any_rest;
  type_rest = take_any_rest;
  lit_rest = take_any_rest;
  eq_rest = λ s r e. omega (arith, take_rest 2 s r e);
  comma_rest = λ s r e. omega (arith, take_rest 1 s r e);
  semi_rest = λ s r e. take_rest 0 s r e;
}

-- `crate_path = 50; 60, drop_pass = 3; 61;`
abbrev table_tokens : List ℕ
table_tokens = 10 ∷ 2 ∷ 50 ∷ 0 ∷ 60 ∷ 1 ∷ 11 ∷ 2 ∷ 3 ∷ 0 ∷ 61 ∷ 0 ∷ []

parsed :
    parse toy 13 table_tokens
    ≡ some (
        ok (record {
          crate_path = 50;
          entries =
              record { ty = 60; drop_pass = some 3 } ∷ record { ty = 61; drop_pass = none } ∷ [];
        }))
unfolding parse
parsed = refl

parse-passes_small_example :
    (r : SynResult (TypeTableInput toy)) × (parse toy 13 table_tokens ≡ some r)
    × (elim r [ err x ↦ true | ok input ↦ passes_small toy input.entries ] ≡ true)
unfolding toy-IsSyn
parse-passes_small_example = parse-passes_small toy toy-IsSyn 13 table_tokens (omega arith)

abbrev two_types : List Entry
two_types =
    (record { size = 8; align = 8; needs_drop = true }, none)
    ∷ (record { size = 4; align = 4; needs_drop = false }, some 2)
    ∷ []

two_types_fit :
    (i : ℕ) (e : Entry)
    → get_elem? two_types i ≡ some e
    → layout_size_of 24 8 e.0.size e.0.align < 2 ^ 31
unfolding layout_size_of
two_types_fit zero e at = ground (arith, at)
two_types_fit (suc zero) e at = ground (arith, at)
two_types_fit (suc (suc i)) e at = absurd cc

gc_type_table_internal-IsTable_example :
    ((256 < length two_types)
      × (gc_type_table_internal 24 8 two_types ≡ err SynError.too_many_types))
    ⊎ ((out : TypeTable) × (gc_type_table_internal 24 8 two_types ≡ ok out)
        × IsTable 24 8 two_types out)
gc_type_table_internal-IsTable_example = gc_type_table_internal-IsTable 24 8 two_types two_types_fit

-- `#[doc] #[gc(skip)]`, `#[gc(with = "40")]`, `#[gc(skip, skip)]`, and no attribute.
abbrev gc_attr : List Meta → Attribute
gc_attr metas = record { is_gc = true; metas = metas; rest = ok tt }

abbrev doc_attr : Attribute
doc_attr = record { is_gc = false; metas = []; rest = ok tt }

abbrev twice_skipped : List Attribute
twice_skipped = doc_attr ∷ gc_attr (Meta.skip ∷ Meta.skip ∷ []) ∷ []

twice_skipped_fails : field_kind twice_skipped ≡ err SynError.duplicate_attribute
unfolding field_kind
twice_skipped_fails = refl

abbrev three_fields : List Field
three_fields =
    record { ident = 1; attrs = [] }
    ∷ record { ident = 2; attrs = doc_attr ∷ gc_attr (Meta.skip ∷ []) ∷ [] }
    ∷ record { ident = 3; attrs = gc_attr (Meta.with_value (ok 40) ∷ []) ∷ [] }
    ∷ []

-- The value of each member, one reference.
abbrev member_value : Member → El Ty.gc_ref
unfolding El
member_value (Member.self_name x) = x
member_value (Member.local_name x) = x
member_value (Member.self_index i) = i
member_value (Member.local_index i) = i

abbrev trace_member : Member → List Ptr → List Ptr
trace_member m gcx = resolve Ty.gc_ref (member_value m) gcx

abbrev call_member : PathName → Member → List Ptr → List Ptr
call_member path m gcx = resolve Ty.gc_ref (member_value m) gcx

abbrev HeldMember : Member → Ptr → Type 0
HeldMember m p = Holds Ty.gc_ref (member_value m) p

abbrev HeldWith : PathName → Member → Ptr → Type 0
HeldWith path m p = HeldMember m p

trace_member-law :
    (m : Member) (gcx : List Ptr) (p : Ptr)
    → (p ∈ trace_member m gcx) ↔ (HeldMember m p ⊎ (p ∈ gcx))
trace_member-law m gcx p = resolve-Holds Ty.gc_ref (member_value m) gcx p

abbrev three_stmts : List Stmt
three_stmts = Stmt.trace (Member.self_name 1) ∷ Stmt.call 40 (Member.self_name 3) ∷ []

expanded : struct_stmts (Fields.named_fields three_fields) ≡ ok three_stmts
unfolding struct_stmts
expanded = refl

struct_stmts-AnyHeld_example :
    (7 ∈ run_stmts trace_member call_member HeldMember HeldWith three_stmts (7 ∷ [])) ↔ (
      AnyHeld trace_member call_member HeldMember HeldWith
        (fields_of_self (Fields.named_fields three_fields))
        7
      ⊎ (7 ∈ (7 ∷ [])))
struct_stmts-AnyHeld_example =
    struct_stmts-AnyHeld trace_member call_member HeldMember HeldWith trace_member-law
      (λ path m gcx p. trace_member-law m gcx p) (Fields.named_fields three_fields) three_stmts
      expanded (7 ∷ []) 7

abbrev two_variants : List Variant
two_variants =
    record { ident = 5; fields = Fields.unit_fields }
    ∷ record { ident = 6; fields = Fields.unnamed_fields three_fields }
    ∷ []

abbrev two_arms : List Arm
two_arms =
    record { variant = 5; pattern = []; stmts = [] }
    ∷ record {
      variant = 6;
      pattern =
          binds (Member.local_index 0)
          ∷ ignores (Member.local_index 1)
          ∷ binds (Member.local_index 2)
          ∷ [];
      stmts = Stmt.trace (Member.local_index 0) ∷ Stmt.call 40 (Member.local_index 2) ∷ [];
    }
    ∷ []

arms_expanded : variant_arms two_variants ≡ ok two_arms
unfolding variant_arms
arms_expanded = refl

variant_arms-AnyHeld_example :
    (arm : Arm) × (get_elem? two_arms 1 ≡ some arm)
    × IsArm 6 (fields_of_pattern (Fields.unnamed_fields three_fields)) arm
    × ((gcx : List Ptr) (p : Ptr)
        → (p ∈ run_stmts trace_member call_member HeldMember HeldWith arm.stmts gcx) ↔ (
            AnyHeld trace_member call_member HeldMember HeldWith
              (fields_of_pattern (Fields.unnamed_fields three_fields))
              p
            ⊎ (p ∈ gcx)))
variant_arms-AnyHeld_example =
    variant_arms-AnyHeld trace_member call_member HeldMember HeldWith trace_member-law
      (λ path m gcx p. trace_member-law m gcx p) two_variants two_arms 1
      (record { ident = 6; fields = Fields.unnamed_fields three_fields }) arms_expanded refl

-- `struct Wrap<T>` with the fields above.
abbrev wrap : DeriveInput
wrap = record {
  ident = 8;
  generics = GenericParam.type_param 9 [] ∷ [];
  data_of = Data.struct_data (Fields.named_fields three_fields);
}

expand_gc_trace-accepts_example : is_ok (expand_gc_trace 70 wrap) ≡ accepts wrap.data_of
expand_gc_trace-accepts_example = expand_gc_trace-accepts 70 wrap
