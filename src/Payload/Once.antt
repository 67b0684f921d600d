-- ===== src/Payload/Once.antt =====
-- A context never holds a node twice.
use gc_lite.Base.{
  ◌≡◌, ◌↔◌, refl, Bool, true, not, ◌&&◌, List, [], ◌∷◌, none, some, inl, inr, contains, arith, ◌∈◌,
}
use gc_lite.Node.{Ptr}
use gc_lite.Trace.{add_node}
use gc_lite.Payload.{
  Ty, El, Tracer, resolve, gc_children, trace_gc_ref, trace_primitive, trace_deref, trace_cell,
  trace_slice, trace_vec, trace_items, trace_option, trace_result, trace_map, trace_tuple,
}
use gc_lite.Payload.Holds.{Holds, resolve-Holds}

-- No node stands twice in the list.
unfoldable pub unique : List Ptr → Bool
unique [] = true
unique (p ∷ ps) = not (contains ps p) && unique ps

KeepsUnique {ℓ} : {A : Type ℓ} → Tracer A → Type ℓ
KeepsUnique {A = A} f = (a : A) (gcx : List Ptr) → unique gcx ≡ true → unique (f a gcx) ≡ true

module _ {ℓ} {A : Type ℓ} (f : Tracer A) (keeps : KeepsUnique f) where
  slice-KeepsUnique : KeepsUnique (trace_slice f)
  unfolding trace_slice KeepsUnique
  slice-KeepsUnique [] gcx u = u
  slice-KeepsUnique (x ∷ xs) gcx u = slice-KeepsUnique xs (f x gcx) (keeps x gcx u)

  items-KeepsUnique : KeepsUnique (trace_items f)
  unfolding trace_items KeepsUnique
  items-KeepsUnique [] gcx u = u
  items-KeepsUnique (x ∷ xs) gcx u = items-KeepsUnique xs (f x gcx) (keeps x gcx u)

  option-KeepsUnique : KeepsUnique (trace_option f)
  unfolding trace_option KeepsUnique
  option-KeepsUnique none gcx u = u
  option-KeepsUnique (some x) gcx u = keeps x gcx u

module _ {ℓ ℓ'} {A : Type ℓ} {B : Type ℓ'} (f : Tracer A) (g : Tracer B) (keeps : KeepsUnique f)
    (keeps' : KeepsUnique g) where
  result-KeepsUnique : KeepsUnique (trace_result f g)
  unfolding trace_result KeepsUnique
  result-KeepsUnique (inl x) gcx u = keeps x gcx u
  result-KeepsUnique (inr y) gcx u = keeps' y gcx u

  tuple-KeepsUnique : KeepsUnique (trace_tuple f g)
  unfolding trace_tuple KeepsUnique
  tuple-KeepsUnique (x, y) gcx u = keeps' y (f x gcx) (keeps x gcx u)

  map-KeepsUnique : KeepsUnique (trace_map f g)
  unfolding trace_map KeepsUnique
  map-KeepsUnique [] gcx u = u
  map-KeepsUnique ((k, v) ∷ es) gcx u =
      map-KeepsUnique es (g v (f k gcx)) (keeps' v (f k gcx) (keeps k gcx u))

gc_ref-KeepsUnique : KeepsUnique trace_gc_ref
unfolding trace_gc_ref add_node unique KeepsUnique
gc_ref-KeepsUnique v gcx u = ground arith

resolve-KeepsUnique : (t : Ty) → KeepsUnique (resolve t)
unfolding resolve El trace_primitive trace_deref trace_cell trace_vec KeepsUnique
resolve-KeepsUnique Ty.primitive value gcx u = u
resolve-KeepsUnique Ty.gc_ref value gcx u = gc_ref-KeepsUnique value gcx u
resolve-KeepsUnique (Ty.deref t) value gcx u = resolve-KeepsUnique t value gcx u
resolve-KeepsUnique (Ty.cell t) value gcx u = resolve-KeepsUnique t value gcx u
resolve-KeepsUnique (Ty.vec t) value gcx u =
    slice-KeepsUnique (resolve t) (resolve-KeepsUnique t) value gcx u
resolve-KeepsUnique (Ty.items t) value gcx u =
    items-KeepsUnique (resolve t) (resolve-KeepsUnique t) value gcx u
resolve-KeepsUnique (Ty.option t) value gcx u =
    option-KeepsUnique (resolve t) (resolve-KeepsUnique t) value gcx u
resolve-KeepsUnique (Ty.result t v) value gcx u =
    result-KeepsUnique (resolve t) (resolve v) (resolve-KeepsUnique t) (resolve-KeepsUnique v) value
      gcx u
resolve-KeepsUnique (Ty.map t v) value gcx u =
    map-KeepsUnique (resolve t) (resolve v) (resolve-KeepsUnique t) (resolve-KeepsUnique v) value
      gcx u
resolve-KeepsUnique (Ty.tuple t v) value gcx u =
    tuple-KeepsUnique (resolve t) (resolve v) (resolve-KeepsUnique t) (resolve-KeepsUnique v) value
      gcx u

-- Collect the children of any value of a type built from numbers, strings, references, boxes, cells,
-- slices, vectors, sets, options, results, maps and tuples. A node is among them exactly if a
-- reference to it stands somewhere in the value, at any depth, whatever the order in which maps and
-- sets give their entries; and no node is listed twice.
pub gc_children-Holds :
    (t : Ty) (value : El t)
    → ((p : Ptr) → (p ∈ gc_children t value) ↔ Holds t value p)
      × (unique (gc_children t value) ≡ true)
unfolding gc_children unique KeepsUnique
gc_children-Holds t value = (
  λ p. (
    λ i. elim ((resolve-Holds t value [] p).0 i) [ inl h ↦ h | inr never ↦ absurd cc ],
    λ h. (resolve-Holds t value [] p).1 (inl h),
  ),
  resolve-KeepsUnique t value [] refl,
)
