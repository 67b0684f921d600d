-- ===== src/Payload/Holds.antt =====
-- The references that a value holds, and that its trace function submits them and no others.
use gc_lite.Base.{
  ◌≡◌, ◌↔◌, true, false, List, [], ◌∷◌, Option, none, some, ◌⊎◌, inl, inr, arith, ==_iff, ◌==◌,
  Bool-cases, ◌∈◌,
}
use gc_lite.Node.{Ptr}
use gc_lite.Trace.{add_node}
use gc_lite.Payload.{
  Ty, El, Tracer, resolve, trace_gc_ref, trace_primitive, trace_deref, trace_cell, trace_slice,
  trace_vec, trace_items, trace_option, trace_result, trace_map, trace_tuple,
}

unfoldable pub Any {ℓ} : {A : Type ℓ} → (A → Type 0) → List A → Type 0
Any P [] = true ≡ false
Any P (x ∷ xs) = P x ⊎ Any P xs

unfoldable pub AnyIn {ℓ} : {A : Type ℓ} → (A → Type 0) → Option A → Type 0
AnyIn P none = true ≡ false
AnyIn P (some x) = P x

unfoldable pub AnyOf {ℓ ℓ'} :
    {A : Type ℓ} {B : Type ℓ'} → (A → Type 0) → (B → Type 0) → A ⊎ B → Type 0
AnyOf P Q (inl x) = P x
AnyOf P Q (inr y) = Q y

-- Somewhere inside the value stands a reference to the node.
unfoldable pub Holds : (t : Ty) → El t → Ptr → Type 0
unfolding El Any AnyIn AnyOf
Holds Ty.primitive v p = true ≡ false
Holds Ty.gc_ref v p = v ≡ p
Holds (Ty.deref t) v p = Holds t v p
Holds (Ty.cell t) v p = Holds t v p
Holds (Ty.vec t) vs p = Any (λ v. Holds t v p) vs
Holds (Ty.items t) vs p = Any (λ v. Holds t v p) vs
Holds (Ty.option t) o p = AnyIn (λ v. Holds t v p) o
Holds (Ty.result t u) r p = AnyOf (λ v. Holds t v p) (λ v. Holds u v p) r
Holds (Ty.map t u) entries p = Any (λ e. Holds t e.0 p ⊎ Holds u e.1 p) entries
Holds (Ty.tuple t u) v p = Holds t v.0 p ⊎ Holds u v.1 p

-- A trace function adds to a context the nodes that its value holds.
Adds {ℓ} : {A : Type ℓ} → Tracer A → (A → Ptr → Type 0) → Type ℓ
Adds {A = A} f H = (a : A) (gcx : List Ptr) (p : Ptr) → (p ∈ f a gcx) ↔ (H a p ⊎ (p ∈ gcx))

pub or_step {ℓ} : {X Y Z A B : Type ℓ} → (X ↔ (A ⊎ Y)) → (Y ↔ (B ⊎ Z)) → X ↔ ((B ⊎ A) ⊎ Z)
or_step f g = (
  λ x. elim (f.0 x) [
    | inl a ↦ inl (inr a)
    | inr y ↦ elim (g.0 y) [ inl b ↦ inl (inl b) | inr z ↦ inr z ]
  ],
  λ s. elim s [
    | inl ba ↦ elim ba [ inl b ↦ f.1 (inr (g.1 (inl b))) | inr a ↦ f.1 (inl a) ]
    | inr z ↦ f.1 (inr (g.1 (inr z)))
  ],
)

pub nothing {ℓ} : {Z : Type ℓ} {N : Type 0} → (N → true ≡ false) → Z ↔ (N ⊎ Z)
nothing no_ =
    (λ z. inr z, λ s. elim s [ inl n ↦ let e : true ≡ false = no_ n in absurd cc | inr z ↦ z ])

pub same {ℓ} : {Z : Type ℓ} → Z ↔ Z
same = (λ z. z, λ z. z)

module _ {ℓ} {A : Type ℓ} (f : Tracer A) (H : A → Ptr → Type 0) (law : Adds f H) where
  Adds-slice : Adds (trace_slice f) (λ xs p. Any (λ x. H x p) xs)
  unfolding trace_slice Any Adds
  Adds-slice [] gcx p = nothing (λ e. e)
  Adds-slice (x ∷ xs) gcx p = or_step (Adds-slice xs (f x gcx) p) (law x gcx p)

  Adds-items : Adds (trace_items f) (λ xs p. Any (λ x. H x p) xs)
  unfolding trace_items Any Adds
  Adds-items [] gcx p = nothing (λ e. e)
  Adds-items (x ∷ xs) gcx p = or_step (Adds-items xs (f x gcx) p) (law x gcx p)

  Adds-option : Adds (trace_option f) (λ o p. AnyIn (λ x. H x p) o)
  unfolding trace_option AnyIn Adds
  Adds-option none gcx p = nothing (λ e. e)
  Adds-option (some x) gcx p = law x gcx p

module _ {ℓ ℓ'} {A : Type ℓ} {B : Type ℓ'} (f : Tracer A) (g : Tracer B) (H : A → Ptr → Type 0)
    (K : B → Ptr → Type 0) (law : Adds f H) (law' : Adds g K) where
  Adds-result : Adds (trace_result f g) (λ r p. AnyOf (λ x. H x p) (λ y. K y p) r)
  unfolding trace_result AnyOf Adds
  Adds-result (inl x) gcx p = law x gcx p
  Adds-result (inr y) gcx p = law' y gcx p

  Adds-tuple : Adds (trace_tuple f g) (λ v p. H v.0 p ⊎ K v.1 p)
  unfolding trace_tuple Adds
  Adds-tuple (x, y) gcx p = or_step (law' y (f x gcx) p) (law x gcx p)

  Adds-map : Adds (trace_map f g) (λ es p. Any (λ e. H e.0 p ⊎ K e.1 p) es)
  unfolding trace_map Any Adds
  Adds-map [] gcx p = nothing (λ e. e)
  Adds-map ((k, v) ∷ es) gcx p =
      or_step (Adds-map es (g v (f k gcx)) p) (or_step (law' v (f k gcx) p) (law k gcx p))

Adds-gc_ref : Adds trace_gc_ref (λ v p. v ≡ p)
unfolding trace_gc_ref add_node Adds
Adds-gc_ref v gcx p = (
  λ i. elim (Bool-cases (v == p)) [
    | inl e ↦ inl ((==_iff v p).0 e)
    | inr d ↦ inr (ground (arith, d, i, ==_iff v p))
  ],
  λ s. elim s [ inl e ↦ ground (arith, e, ==_iff v p) | inr i ↦ ground (arith, i, ==_iff v p) ],
)

-- At every type.
pub resolve-Holds :
    (t : Ty) (value : El t) (gcx : List Ptr) (p : Ptr)
    → (p ∈ resolve t value gcx) ↔ (Holds t value p ⊎ (p ∈ gcx))
unfolding resolve El Holds trace_primitive trace_deref trace_cell trace_vec Adds
resolve-Holds Ty.primitive value gcx p = nothing (λ e. e)
resolve-Holds Ty.gc_ref value gcx p = Adds-gc_ref value gcx p
resolve-Holds (Ty.deref t) value gcx p = resolve-Holds t value gcx p
resolve-Holds (Ty.cell t) value gcx p = resolve-Holds t value gcx p
resolve-Holds (Ty.vec t) value gcx p =
    Adds-slice (resolve t) (Holds t) (resolve-Holds t) value gcx p
resolve-Holds (Ty.items t) value gcx p =
    Adds-items (resolve t) (Holds t) (resolve-Holds t) value gcx p
resolve-Holds (Ty.option t) value gcx p =
    Adds-option (resolve t) (Holds t) (resolve-Holds t) value gcx p
resolve-Holds (Ty.result t u) value gcx p =
    Adds-result (resolve t) (resolve u) (Holds t) (Holds u) (resolve-Holds t) (resolve-Holds u)
      value gcx p
resolve-Holds (Ty.map t u) value gcx p =
    Adds-map (resolve t) (resolve u) (Holds t) (Holds u) (resolve-Holds t) (resolve-Holds u) value
      gcx p
resolve-Holds (Ty.tuple t u) value gcx p =
    Adds-tuple (resolve t) (resolve u) (Holds t) (Holds u) (resolve-Holds t) (resolve-Holds u) value
      gcx p
