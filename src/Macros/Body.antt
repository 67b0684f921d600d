-- ===== src/Macros/Body.antt =====
-- What the derived trace function does with the fields.
use gc_lite.Base.{ℕ, suc, ◌≡◌, refl, ap, List, [], ◌∷◌}
use gc_lite.Macros.{SynResult, ok, ◌>>=◌}
use gc_lite.Macros.Derive.{
  Ident, Field, Fields, Variant, FieldKind, field_kind, Member, Stmt, stmts_for, extend,
  named_field_stmts, unnamed_field_stmts, pattern_for, Arm, named_arm, unnamed_arm, arm_of_fields,
  variant_arm, struct_stmts,
}

-- The fields as the derived code sees them: what each field's attributes come to, and its member.
abbrev pub Seen : Type 0
Seen = SynResult FieldKind × Member

seen_named : (Ident → Member) → List Field → List Seen
seen_named name [] = []
seen_named name (f ∷ fields) = (field_kind f.attrs, name f.ident) ∷ seen_named name fields

seen_unnamed : (ℕ → Member) → ℕ → List Field → List Seen
seen_unnamed index i [] = []
seen_unnamed index i (f ∷ fields) =
    (field_kind f.attrs, index i) ∷ seen_unnamed index (suc i) fields

-- In a struct, and in a pattern.
unfoldable pub fields_of_self : Fields → List Seen
unfolding seen_named seen_unnamed
fields_of_self (Fields.named_fields fields) = seen_named Member.self_name fields
fields_of_self (Fields.unnamed_fields fields) = seen_unnamed Member.self_index 0 fields
fields_of_self Fields.unit_fields = []

unfoldable pub fields_of_pattern : Fields → List Seen
unfolding seen_named seen_unnamed
fields_of_pattern (Fields.named_fields fields) = seen_named Member.local_name fields
fields_of_pattern (Fields.unnamed_fields fields) = seen_unnamed Member.local_index 0 fields
fields_of_pattern Fields.unit_fields = []

-- The statements and the patterns of such fields.
unfoldable pub stmts_of : List Seen → SynResult (List Stmt)
unfolding stmts_for extend
stmts_of [] = ok []
stmts_of ((kind, member) ∷ fields) = do
  k ← kind
  stmts ← stmts_of fields
  ok (extend (stmts_for k member) stmts)

unfoldable pub arm_of : Ident → List Seen → SynResult Arm
unfolding stmts_for extend pattern_for
arm_of vname [] = ok (record { variant = vname; pattern = []; stmts = [] })
arm_of vname ((kind, member) ∷ fields) = do
  k ← kind
  arm ← arm_of vname fields
  ok (record {
    variant = vname;
    pattern = pattern_for k member ∷ arm.pattern;
    stmts = extend (stmts_for k member) arm.stmts;
  })

named_field_stmts-seen :
    (fields : List Field) → named_field_stmts fields ≡ stmts_of (seen_named Member.self_name fields)
unfolding named_field_stmts stmts_of seen_named
named_field_stmts-seen [] = refl
named_field_stmts-seen (f ∷ fields) =
    ap
      (λ r. field_kind f.attrs >>= λ k.
        r >>= λ stmts. ok (extend (stmts_for k (Member.self_name f.ident)) stmts))
      (named_field_stmts-seen fields)

unnamed_field_stmts-seen :
    (i : ℕ) (fields : List Field)
    → unnamed_field_stmts i fields ≡ stmts_of (seen_unnamed Member.self_index i fields)
unfolding unnamed_field_stmts stmts_of seen_unnamed
unnamed_field_stmts-seen i [] = refl
unnamed_field_stmts-seen i (f ∷ fields) =
    ap
      (λ r. field_kind f.attrs >>= λ k.
        r >>= λ stmts. ok (extend (stmts_for k (Member.self_index i)) stmts))
      (unnamed_field_stmts-seen (suc i) fields)

pub struct_stmts-seen : (fields : Fields) → struct_stmts fields ≡ stmts_of (fields_of_self fields)
unfolding struct_stmts stmts_of fields_of_self
struct_stmts-seen (Fields.named_fields fields) = named_field_stmts-seen fields
struct_stmts-seen (Fields.unnamed_fields fields) = unnamed_field_stmts-seen 0 fields
struct_stmts-seen Fields.unit_fields = refl

named_arm-seen :
    (vname : Ident) (fields : List Field)
    → named_arm vname fields ≡ arm_of vname (seen_named Member.local_name fields)
unfolding named_arm arm_of seen_named
named_arm-seen vname [] = refl
named_arm-seen vname (f ∷ fields) =
    ap
      (λ r. field_kind f.attrs >>= λ k. r >>= λ (arm : Arm). ok (record {
        variant = vname;
        pattern = pattern_for k (Member.local_name f.ident) ∷ arm.pattern;
        stmts = extend (stmts_for k (Member.local_name f.ident)) arm.stmts;
      }))
      (named_arm-seen vname fields)

unnamed_arm-seen :
    (vname : Ident) (i : ℕ) (fields : List Field)
    → unnamed_arm vname i fields ≡ arm_of vname (seen_unnamed Member.local_index i fields)
unfolding unnamed_arm arm_of seen_unnamed
unnamed_arm-seen vname i [] = refl
unnamed_arm-seen vname i (f ∷ fields) =
    ap
      (λ r. field_kind f.attrs >>= λ k. r >>= λ (arm : Arm). ok (record {
        variant = vname;
        pattern = pattern_for k (Member.local_index i) ∷ arm.pattern;
        stmts = extend (stmts_for k (Member.local_index i)) arm.stmts;
      }))
      (unnamed_arm-seen vname (suc i) fields)

arm_of_fields-seen :
    (vname : Ident) (fields : Fields)
    → arm_of_fields vname fields ≡ arm_of vname (fields_of_pattern fields)
unfolding arm_of_fields arm_of fields_of_pattern
arm_of_fields-seen vname (Fields.named_fields fields) = named_arm-seen vname fields
arm_of_fields-seen vname (Fields.unnamed_fields fields) = unnamed_arm-seen vname 0 fields
arm_of_fields-seen vname Fields.unit_fields = refl

pub variant_arm-seen : (v : Variant) → variant_arm v ≡ arm_of v.ident (fields_of_pattern v.fields)
unfolding variant_arm
variant_arm-seen v = arm_of_fields-seen v.ident v.fields
