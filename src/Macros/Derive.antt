-- ===== src/Macros/Derive.antt =====
-- `#[derive(GcTrace)]` (gc-lite-macros/src/lib.rs). The parsed item is a value of the types below; of
-- the emitted code, the statements, the patterns and the bounds are kept.
use gc_lite.Base.{ℕ, suc, Bool, List, [], ◌∷◌, Option, none, some, if◌then◌else◌}
use gc_lite.Macros.{SynError, SynResult, ok, err, ◌>>=◌, ◌>>◌}

-- Names and paths, which the macro only copies.
abbrev pub Ident : Type 0
Ident = ℕ

abbrev pub PathName : Type 0
PathName = ℕ

-- A key inside `#[gc(...)]`: `skip`, `with` and what its value parses to, or another one.
pub data Meta : Type 0 where
  skip : Meta
  with_value : SynResult PathName → Meta
  other : Meta

-- `is_gc`: the attribute's path is `gc`. `rest`: the error of the parser after the keys, if any.
pub record Attribute : Type 0 where
  pub is_gc : Bool
  pub metas : List Meta
  pub rest : SynResult (Unit {0})

pub record Field : Type 0 where
  pub ident : Ident
  pub attrs : List Attribute

pub data Fields : Type 0 where
  named_fields unnamed_fields : List Field → Fields
  unit_fields : Fields

pub record Variant : Type 0 where
  pub ident : Ident
  pub fields : Fields

pub data Data : Type 0 where
  struct_data : Fields → Data
  enum_data : List Variant → Data
  union_data : Data

-- A generic parameter: a type with the traits that bound it, or another one.
pub data GenericParam : Type 0 where
  type_param : Ident → List PathName → GenericParam
  other_param : Ident → GenericParam

pub record DeriveInput : Type 0 where
  pub ident : Ident
  pub generics : List GenericParam
  pub data_of : Data

pub data FieldKind : Type 0 where
  trace_kind skip_kind : FieldKind
  with_kind : PathName → FieldKind

-- `field_kind`
unfoldable pub meta_kind : Meta → SynResult FieldKind
meta_kind Meta.skip = ok FieldKind.skip_kind
meta_kind (Meta.with_value v) = v >>= λ path. ok (FieldKind.with_kind path)
meta_kind Meta.other = err SynError.unknown_attribute

-- The closure given to `parse_nested_meta`, on the variable `kind` that it captures.
unfoldable pub on_meta : Meta → Option FieldKind → SynResult (Option FieldKind)
unfolding meta_kind
on_meta meta kind = do
  new_kind ← meta_kind meta
  elim kind [ none ↦ ok (some new_kind) | some old ↦ err SynError.duplicate_attribute ]

unfoldable pub on_metas : List Meta → Option FieldKind → SynResult (Option FieldKind)
unfolding on_meta
on_metas [] kind = ok kind
on_metas (meta ∷ metas) kind = on_meta meta kind >>= on_metas metas

unfoldable pub on_attrs : List Attribute → Option FieldKind → SynResult (Option FieldKind)
unfolding on_metas
on_attrs [] kind = ok kind
on_attrs (attr ∷ attrs) kind =
    if attr.is_gc
    then (on_metas attr.metas kind >>= λ kind'. attr.rest >> on_attrs attrs kind')
    else on_attrs attrs kind

unfoldable pub unwrap_kind : Option FieldKind → FieldKind
unwrap_kind none = FieldKind.trace_kind
unwrap_kind (some kind) = kind

unfoldable pub field_kind : List Attribute → SynResult FieldKind
unfolding on_attrs unwrap_kind
field_kind attrs = on_attrs attrs none >>= λ kind. ok (unwrap_kind kind)

-- What a statement passes to the trace function: a field of `self`, by its name or its index, or the
-- variable that a pattern binds, by its name or as `__field_i`.
pub data Member : Type 0 where
  self_name local_name : Ident → Member
  self_index local_index : ℕ → Member

-- `GcTrace::trace(member, ctx)`, and `path(member, ctx)`.
pub data Stmt : Type 0 where
  trace : Member → Stmt
  call : PathName → Member → Stmt

unfoldable pub stmts_for : FieldKind → Member → List Stmt
stmts_for FieldKind.skip_kind member = []
stmts_for FieldKind.trace_kind member = Stmt.trace member ∷ []
stmts_for (FieldKind.with_kind path) member = Stmt.call path member ∷ []

unfoldable pub extend : {A : Type 0} → List A → List A → List A
extend [] ys = ys
extend (x ∷ xs) ys = x ∷ extend xs ys

unfoldable pub named_field_stmts : List Field → SynResult (List Stmt)
unfolding stmts_for extend field_kind
named_field_stmts [] = ok []
named_field_stmts (f ∷ fields) = do
  kind ← field_kind f.attrs
  stmts ← named_field_stmts fields
  ok (extend (stmts_for kind (Member.self_name f.ident)) stmts)

-- From the index `i` on.
unfoldable pub unnamed_field_stmts : ℕ → List Field → SynResult (List Stmt)
unfolding stmts_for extend field_kind
unnamed_field_stmts i [] = ok []
unnamed_field_stmts i (f ∷ fields) = do
  kind ← field_kind f.attrs
  stmts ← unnamed_field_stmts (suc i) fields
  ok (extend (stmts_for kind (Member.self_index i)) stmts)

-- One entry of a pattern: a variable, or, for a field that is skipped, `name: _` or `_`.
pub data Pattern : Type 0 where
  binds ignores : Member → Pattern

unfoldable pub pattern_for : FieldKind → Member → Pattern
pattern_for FieldKind.skip_kind member = Pattern.ignores member
pattern_for FieldKind.trace_kind member = Pattern.binds member
pattern_for (FieldKind.with_kind path) member = Pattern.binds member

pub record Arm : Type 0 where
  pub variant : Ident
  pub pattern : List Pattern
  pub stmts : List Stmt

-- The member of each field, by name or from an index on.
unfoldable pub named_arm : Ident → List Field → SynResult Arm
unfolding stmts_for pattern_for extend field_kind
named_arm vname [] = ok (record { variant = vname; pattern = []; stmts = [] })
named_arm vname (f ∷ fields) = do
  kind ← field_kind f.attrs
  arm ← named_arm vname fields
  ok (record {
    variant = vname;
    pattern = pattern_for kind (Member.local_name f.ident) ∷ arm.pattern;
    stmts = extend (stmts_for kind (Member.local_name f.ident)) arm.stmts;
  })

unfoldable pub unnamed_arm : Ident → ℕ → List Field → SynResult Arm
unfolding stmts_for pattern_for extend field_kind
unnamed_arm vname i [] = ok (record { variant = vname; pattern = []; stmts = [] })
unnamed_arm vname i (f ∷ fields) = do
  kind ← field_kind f.attrs
  arm ← unnamed_arm vname (suc i) fields
  ok (record {
    variant = vname;
    pattern = pattern_for kind (Member.local_index i) ∷ arm.pattern;
    stmts = extend (stmts_for kind (Member.local_index i)) arm.stmts;
  })

unfoldable pub arm_of_fields : Ident → Fields → SynResult Arm
unfolding named_arm unnamed_arm
arm_of_fields vname (Fields.named_fields fields) = named_arm vname fields
arm_of_fields vname (Fields.unnamed_fields fields) = unnamed_arm vname 0 fields
arm_of_fields vname Fields.unit_fields = ok (record { variant = vname; pattern = []; stmts = [] })

unfoldable pub variant_arm : Variant → SynResult Arm
unfolding arm_of_fields
variant_arm v = arm_of_fields v.ident v.fields

unfoldable pub variant_arms : List Variant → SynResult (List Arm)
unfolding variant_arm
variant_arms [] = ok []
variant_arms (v ∷ variants) = do arm ← variant_arm v; arms ← variant_arms variants; ok (arm ∷ arms)

pub data Body : Type 0 where
  stmts_body : List Stmt → Body
  match_body : List Arm → Body

pub record Impl : Type 0 where
  pub generics : List GenericParam
  pub name : Ident
  pub body : Body

-- `gc_trace` is the path of the trait.
unfoldable pub add_bounds : PathName → List GenericParam → List GenericParam
unfolding extend
add_bounds gc_trace [] = []
add_bounds gc_trace (GenericParam.type_param t bounds ∷ params) =
    GenericParam.type_param t (extend bounds (gc_trace ∷ [])) ∷ add_bounds gc_trace params
add_bounds gc_trace (GenericParam.other_param x ∷ params) =
    GenericParam.other_param x ∷ add_bounds gc_trace params

unfoldable pub struct_stmts : Fields → SynResult (List Stmt)
unfolding named_field_stmts unnamed_field_stmts
struct_stmts (Fields.named_fields fields) = named_field_stmts fields
struct_stmts (Fields.unnamed_fields fields) = unnamed_field_stmts 0 fields
struct_stmts Fields.unit_fields = ok []

unfoldable pub body_of : Data → SynResult Body
unfolding struct_stmts variant_arms
body_of (Data.struct_data fields) = struct_stmts fields >>= λ stmts. ok (Body.stmts_body stmts)
body_of (Data.enum_data variants) = variant_arms variants >>= λ arms. ok (Body.match_body arms)
body_of Data.union_data = err SynError.union_input

unfoldable pub expand_gc_trace : PathName → DeriveInput → SynResult Impl
unfolding add_bounds body_of
expand_gc_trace gc_trace input = do
  body ← body_of input.data_of
  ok (record { generics = add_bounds gc_trace input.generics; name = input.ident; body = body })
