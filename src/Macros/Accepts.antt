-- ===== src/Macros/Accepts.antt =====
-- Which items the derive macro accepts.
use gc_lite.Base.{◌≡◌, refl, ap, ◌∙◌, Bool, true, false, ◌&&◌, List, [], ◌∷◌}
use gc_lite.Macros.{SynResult, ok, err, ◌>>=◌}
use gc_lite.Macros.Derive.{
  Ident, PathName, Variant, Data, DeriveInput, variant_arm, variant_arms, struct_stmts, body_of,
  expand_gc_trace, Arm, Body, stmts_for, extend, pattern_for, add_bounds,
}
use gc_lite.Macros.Body.{
  Seen, fields_of_self, fields_of_pattern, stmts_of, arm_of, struct_stmts-seen, variant_arm-seen,
}

unfoldable pub is_ok {ℓ} : {A : Type ℓ} → SynResult A → Bool
is_ok (ok a) = true
is_ok (err x) = false

-- No field's attributes are an error.
unfoldable pub all_ok : List Seen → Bool
unfolding is_ok
all_ok [] = true
all_ok ((kind, m) ∷ fields) = is_ok kind && all_ok fields

unfoldable pub variants_ok : List Variant → Bool
unfolding all_ok
variants_ok [] = true
variants_ok (v ∷ variants) = all_ok (fields_of_pattern v.fields) && variants_ok variants

-- A struct or an enum all of whose fields are in order.
unfoldable pub accepts : Data → Bool
unfolding all_ok variants_ok
accepts (Data.struct_data fields) = all_ok (fields_of_self fields)
accepts (Data.enum_data variants) = variants_ok variants
accepts Data.union_data = false

is_ok-bind {ℓ ℓ'} :
    {A : Type ℓ} {B : Type ℓ'} (r : SynResult A) (f : A → SynResult B) (b : Bool)
    → ((a : A) → is_ok (f a) ≡ b)
    → is_ok (r >>= f) ≡ (is_ok r && b)
unfolding is_ok
is_ok-bind (ok a) f b e = e a
is_ok-bind (err x) f b e = refl

is_ok-map {ℓ ℓ'} :
    {A : Type ℓ} {B : Type ℓ'} (r : SynResult A) (f : A → B) → is_ok (r >>= λ a. ok (f a)) ≡ is_ok r
unfolding is_ok
is_ok-map (ok a) f = refl
is_ok-map (err x) f = refl

is_ok-stmts_of : (fields : List Seen) → is_ok (stmts_of fields) ≡ all_ok fields
unfolding stmts_of all_ok is_ok
is_ok-stmts_of [] = refl
is_ok-stmts_of ((kind, m) ∷ fields) =
    is_ok-bind kind (λ k. stmts_of fields >>= λ stmts. ok (extend (stmts_for k m) stmts))
      (all_ok fields)
      (λ k.
        is_ok-map (stmts_of fields) (λ stmts. extend (stmts_for k m) stmts) ∙ is_ok-stmts_of fields)

is_ok-arm_of : (vname : Ident) (fields : List Seen) → is_ok (arm_of vname fields) ≡ all_ok fields
unfolding arm_of all_ok is_ok
is_ok-arm_of vname [] = refl
is_ok-arm_of vname ((kind, m) ∷ fields) =
    is_ok-bind kind
      (λ k. arm_of vname fields >>= λ (arm : Arm). ok (record {
        variant = vname;
        pattern = pattern_for k m ∷ arm.pattern;
        stmts = extend (stmts_for k m) arm.stmts;
      }))
      (all_ok fields)
      (λ k.
        is_ok-map (arm_of vname fields) (λ (arm : Arm). record {
          variant = vname;
          pattern = pattern_for k m ∷ arm.pattern;
          stmts = extend (stmts_for k m) arm.stmts;
        })
        ∙ is_ok-arm_of vname fields)

is_ok-variant_arms :
    (variants : List Variant) → is_ok (variant_arms variants) ≡ variants_ok variants
unfolding variant_arms variants_ok is_ok
is_ok-variant_arms [] = refl
is_ok-variant_arms (v ∷ variants) =
    is_ok-bind (variant_arm v) (λ arm. variant_arms variants >>= λ arms. ok (arm ∷ arms))
      (variants_ok variants)
      (λ arm. is_ok-map (variant_arms variants) (λ arms. arm ∷ arms) ∙ is_ok-variant_arms variants)
    ∙ ap (λ b. b && variants_ok variants)
        (ap is_ok (variant_arm-seen v) ∙ is_ok-arm_of v.ident (fields_of_pattern v.fields))

is_ok-body_of : (d : Data) → is_ok (body_of d) ≡ accepts d
unfolding body_of accepts is_ok
is_ok-body_of (Data.struct_data fields) =
    is_ok-map (struct_stmts fields) Body.stmts_body
    ∙ (ap is_ok (struct_stmts-seen fields) ∙ is_ok-stmts_of (fields_of_self fields))
is_ok-body_of (Data.enum_data variants) =
    is_ok-map (variant_arms variants) Body.match_body ∙ is_ok-variant_arms variants
is_ok-body_of Data.union_data = refl

-- The derive macro emits an impl for exactly the structs and the enums none of whose fields has
-- attributes in error. For a union, and for any item with such a field, wherever it stands, it
-- reports an error and emits nothing.
pub expand_gc_trace-accepts :
    (gc_trace : PathName) (input : DeriveInput)
    → is_ok (expand_gc_trace gc_trace input) ≡ accepts input.data_of
unfolding expand_gc_trace
expand_gc_trace-accepts gc_trace input =
    is_ok-map (body_of input.data_of) (λ body. record {
      generics = add_bounds gc_trace input.generics;
      name = input.ident;
      body = body;
    })
    ∙ is_ok-body_of input.data_of
