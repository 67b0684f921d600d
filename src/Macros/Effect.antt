-- ===== src/Macros/Effect.antt =====
-- The derived trace function at work.
use gc_lite.Base.{
  ℕ, zero, suc, ◌≡◌, ◌↔◌, refl, sym, ap, ◌∙◌, subst, true, false, List, [], ◌∷◌, some, ◌⊎◌, ◌∈◌,
  length, get_elem?, arith,
}
use gc_lite.Node.{Ptr}
use gc_lite.Payload.Holds.{or_step, nothing}
use gc_lite.Macros.{SynResult, ok, err, ◌>>=◌, >>=_ok}
use gc_lite.Macros.Derive.{
  Ident, PathName, Fields, Variant, FieldKind, Member, Stmt, stmts_for, extend, Pattern,
  pattern_for, Arm, variant_arm, variant_arms, struct_stmts,
}
use gc_lite.Macros.Body.{
  Seen, fields_of_self, fields_of_pattern, stmts_of, arm_of, struct_stmts-seen, variant_arm-seen,
}

-- The members that the statements pass on, and those that the pattern binds.
unfoldable pub members : List Stmt → List Member
members [] = []
members (Stmt.trace m ∷ stmts) = m ∷ members stmts
members (Stmt.call path m ∷ stmts) = m ∷ members stmts

unfoldable pub bound : List Pattern → List Member
bound [] = []
bound (Pattern.binds m ∷ pattern) = m ∷ bound pattern
bound (Pattern.ignores m ∷ pattern) = bound pattern

-- An arm agrees with the fields of its variant: the pattern has an entry per field, and it binds just
-- the variables that the statements use.
pub record IsArm (vname : Ident) (fields : List Seen) (arm : Arm) : Type 0 where
  pub stmts : stmts_of fields ≡ ok arm.stmts
  pub named : arm.variant ≡ vname
  pub binding : bound arm.pattern ≡ members arm.stmts
  pub complete : length arm.pattern ≡ length fields

bound-pattern_for :
    (k : FieldKind) (m : Member) (pattern : List Pattern) (stmts : List Stmt)
    → bound pattern ≡ members stmts
    → bound (pattern_for k m ∷ pattern) ≡ members (extend (stmts_for k m) stmts)
unfolding bound pattern_for members extend stmts_for
bound-pattern_for FieldKind.skip_kind m pattern stmts e = e
bound-pattern_for FieldKind.trace_kind m pattern stmts e = ap (λ ms. m ∷ ms) e
bound-pattern_for (FieldKind.with_kind path) m pattern stmts e = ap (λ ms. m ∷ ms) e

arm_of-IsArm :
    (vname : Ident) (fields : List Seen) (arm : Arm)
    → arm_of vname fields ≡ ok arm
    → IsArm vname fields arm
unfolding arm_of stmts_of bound members
arm_of-IsArm vname [] arm e =
    subst (λ (r : SynResult Arm). elim r [ ok a ↦ IsArm vname [] a | err x ↦ true ≡ true ]) e
      (record { stmts = refl; named = refl; binding = refl; complete = refl })
arm_of-IsArm vname ((err x, m) ∷ fields) arm e = absurd cc
arm_of-IsArm vname ((ok k, m) ∷ fields) arm e =
    let (rest, e1, e2) = >>=_ok (arm_of vname fields) _ e in
    let v = arm_of-IsArm vname fields rest e1 in
    subst
      (λ (r : SynResult Arm). elim r [
        | ok a ↦ IsArm vname ((ok k, m) ∷ fields) a
        | err x ↦ true ≡ true
      ])
      e2
      (record {
        stmts = ap (λ r. r >>= λ stmts. ok (extend (stmts_for k m) stmts)) v.stmts;
        named = refl;
        binding = bound-pattern_for k m rest.pattern rest.stmts v.binding;
        complete = ap suc v.complete;
      })

arm_at :
    (variants : List Variant) (arms : List Arm) (i : ℕ) (v : Variant)
    → variant_arms variants ≡ ok arms
    → get_elem? variants i ≡ some v
    → (arm : Arm) × (get_elem? arms i ≡ some arm) × (variant_arm v ≡ ok arm)
unfolding variant_arms
arm_at [] arms i v e at = absurd cc
arm_at (x ∷ variants) arms zero v e at =
    let (arm, e1, k1) = >>=_ok (variant_arm x) _ e in
    let (rest, e2, k2) = >>=_ok (variant_arms variants) _ k1 in
    (arm, ground (arith, k2), ground (arith, at, e1))
arm_at (x ∷ variants) arms (suc i) v e at =
    let (arm, e1, k1) = >>=_ok (variant_arm x) _ e in
    let (rest, e2, k2) = >>=_ok (variant_arms variants) _ k1 in
    let (arm', there, made) = arm_at variants rest i v e2 at in
    (arm', ground (arith, k2, there), made)

-- `traced` and `called` are the trace functions of the members' types and those that `with` names;
-- `Held` and `HeldWith` say which nodes each of them adds.
module _ (traced : Member → List Ptr → List Ptr) (called : PathName → Member → List Ptr → List Ptr)
    (Held : Member → Ptr → Type 0) (HeldWith : PathName → Member → Ptr → Type 0) where
  unfoldable pub run_stmts : List Stmt → List Ptr → List Ptr
  run_stmts [] gcx = gcx
  run_stmts (Stmt.trace m ∷ stmts) gcx = run_stmts stmts (traced m gcx)
  run_stmts (Stmt.call path m ∷ stmts) gcx = run_stmts stmts (called path m gcx)

  -- What a field contributes: nothing if it is skipped.
  unfoldable pub HeldBy : SynResult FieldKind → Member → Ptr → Type 0
  HeldBy (err e) m p = true ≡ false
  HeldBy (ok FieldKind.skip_kind) m p = true ≡ false
  HeldBy (ok FieldKind.trace_kind) m p = Held m p
  HeldBy (ok (FieldKind.with_kind path)) m p = HeldWith path m p

  unfoldable pub AnyHeld : List Seen → Ptr → Type 0
  unfolding HeldBy
  AnyHeld [] p = true ≡ false
  AnyHeld ((kind, m) ∷ fields) p = HeldBy kind m p ⊎ AnyHeld fields p

  module _
      (traced_law : (m : Member) (gcx : List Ptr) (p : Ptr)
        → (p ∈ traced m gcx) ↔ (Held m p ⊎ (p ∈ gcx)))
      (called_law : (path : PathName) (m : Member) (gcx : List Ptr) (p : Ptr)
        → (p ∈ called path m gcx) ↔ (HeldWith path m p ⊎ (p ∈ gcx))) where
    run_field :
        (k : FieldKind) (m : Member) (rest : List Stmt) (gcx : List Ptr) (p : Ptr) (Rest : Type 0)
        → ((gcx' : List Ptr) → (p ∈ run_stmts rest gcx') ↔ (Rest ⊎ (p ∈ gcx')))
        → (p ∈ run_stmts (extend (stmts_for k m) rest) gcx)
          ↔ ((HeldBy (ok k) m p ⊎ Rest) ⊎ (p ∈ gcx))
    unfolding run_stmts extend stmts_for HeldBy
    run_field FieldKind.skip_kind m rest gcx p Rest later = or_step (later gcx) (nothing (λ e. e))
    run_field FieldKind.trace_kind m rest gcx p Rest later =
        or_step (later (traced m gcx)) (traced_law m gcx p)
    run_field (FieldKind.with_kind path) m rest gcx p Rest later =
        or_step (later (called path m gcx)) (called_law path m gcx p)

    run_all :
        (fields : List Seen) (stmts : List Stmt)
        → stmts_of fields ≡ ok stmts
        → (gcx : List Ptr) (p : Ptr) → (p ∈ run_stmts stmts gcx) ↔ (AnyHeld fields p ⊎ (p ∈ gcx))
    unfolding stmts_of AnyHeld run_stmts
    run_all [] stmts e gcx p =
        subst
          (λ (r : SynResult (List Stmt)). elim r [
            | ok s ↦ (p ∈ run_stmts s gcx) ↔ (true ≡ false ⊎ (p ∈ gcx))
            | err x ↦ true ≡ true
          ])
          e (nothing (λ n. n))
    run_all ((err x, m) ∷ fields) stmts e gcx p = absurd cc
    run_all ((ok k, m) ∷ fields) stmts e gcx p =
        let (rest, e1, e2) = >>=_ok (stmts_of fields) _ e in
        subst
          (λ (r : SynResult (List Stmt)). elim r [
            | ok s ↦ (p ∈ run_stmts s gcx) ↔ ((HeldBy (ok k) m p ⊎ AnyHeld fields p) ⊎ (p ∈ gcx))
            | err x ↦ true ≡ true
          ])
          e2 (run_field k m rest gcx p (AnyHeld fields p) (λ gcx'. run_all fields rest e1 gcx' p))

    -- Derive the trace function of a struct, with named fields, unnamed ones or none, and let it
    -- succeed. Let each field's own trace function, and each function that `with` names, add to a
    -- context just the nodes that it stands for. Then the derived body adds just the nodes of the
    -- fields that are not skipped, by the field's own function or by the one that `with` names; no
    -- field is left out and no node is lost.
    pub struct_stmts-AnyHeld :
        (fields : Fields) (stmts : List Stmt)
        → struct_stmts fields ≡ ok stmts
        → (gcx : List Ptr) (p : Ptr)
        → (p ∈ run_stmts stmts gcx) ↔ (AnyHeld (fields_of_self fields) p ⊎ (p ∈ gcx))
    struct_stmts-AnyHeld fields stmts e gcx p =
        run_all (fields_of_self fields) stmts (sym (struct_stmts-seen fields) ∙ e) gcx p

    -- Derive the trace function of an enum, and let it succeed, the fields' functions as above. The
    -- match has an arm for each variant, in order and with its name; the arm's pattern has an entry
    -- per field and binds just the variables that its statements use; and its statements add just the
    -- nodes of the variant's fields that are not skipped.
    pub variant_arms-AnyHeld :
        (variants : List Variant) (arms : List Arm) (i : ℕ) (v : Variant)
        → variant_arms variants ≡ ok arms
        → get_elem? variants i ≡ some v
        → (arm : Arm) × (get_elem? arms i ≡ some arm)
          × IsArm v.ident (fields_of_pattern v.fields) arm
          × ((gcx : List Ptr) (p : Ptr)
              → (p ∈ run_stmts arm.stmts gcx)
                ↔ (AnyHeld (fields_of_pattern v.fields) p ⊎ (p ∈ gcx)))
    variant_arms-AnyHeld variants arms i v e at =
        let (arm, there, made) = arm_at variants arms i v e at in
        let fits =
          arm_of-IsArm v.ident (fields_of_pattern v.fields) arm (sym (variant_arm-seen v) ∙ made) in
        (arm, there, fits, λ gcx p. run_all (fields_of_pattern v.fields) arm.stmts fits.stmts gcx p)
