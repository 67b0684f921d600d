-- ===== src/Payload.antt =====
-- How a payload's type decides what its trace function submits (src/trace.rs and src/node.rs): one
-- function per `impl GcTrace`, which takes the trace functions of the type's parameters, and
-- `resolve`, which picks the impl of a type as trait resolution does. A context is its traced nodes.
pub mod Holds
pub mod Once
use gc_lite.Base.{Bool, List, [], ◌∷◌, Option, none, some, ◌⊎◌, inl, inr}
use gc_lite.Node.{Ptr}
use gc_lite.Trace.{add_node}

abbrev pub Tracer {ℓ} : Type ℓ → Type ℓ
Tracer A = A → List Ptr → List Ptr

-- A `GcRef` is the address of its node.
unfoldable pub trace_gc_ref : Tracer Ptr
unfolding add_node
trace_gc_ref gc_ref gcx = add_node gc_ref gcx

module _ {ℓ} {A : Type ℓ} where
  -- Numbers, `bool`, `char`, strings and `PhantomData`.
  unfoldable pub trace_primitive : Tracer A
  trace_primitive value gcx = gcx

  -- `Box`, `Rc` and `Arc` hold one value.
  unfoldable pub trace_deref : Tracer A → Tracer A
  trace_deref item value gcx = item value gcx

  -- A cell that is not borrowed for a write.
  unfoldable pub trace_cell : Tracer A → Tracer A
  trace_cell item value gcx = item value gcx

  unfoldable pub trace_slice : Tracer A → Tracer (List A)
  trace_slice item [] gcx = gcx
  trace_slice item (x ∷ xs) gcx = trace_slice item xs (item x gcx)

  unfoldable pub trace_vec : Tracer A → Tracer (List A)
  unfolding trace_slice
  trace_vec item xs gcx = trace_slice item xs gcx

  -- `VecDeque`, `HashSet` and `BTreeSet`, in the order that their iterator gives.
  unfoldable pub trace_items : Tracer A → Tracer (List A)
  trace_items item [] gcx = gcx
  trace_items item (x ∷ xs) gcx = trace_items item xs (item x gcx)

  unfoldable pub trace_option : Tracer A → Tracer (Option A)
  trace_option item none gcx = gcx
  trace_option item (some x) gcx = item x gcx

module _ {ℓ ℓ'} {A : Type ℓ} {B : Type ℓ'} where
  -- `Result`: `Ok` on the left.
  unfoldable pub trace_result : Tracer A → Tracer B → A ⊎ B → List Ptr → List Ptr
  trace_result item error (inl x) gcx = item x gcx
  trace_result item error (inr x) gcx = error x gcx

  -- `HashMap` and `BTreeMap`, in the order that their iterator gives.
  unfoldable pub trace_map : Tracer A → Tracer B → List (A × B) → List Ptr → List Ptr
  trace_map key value [] gcx = gcx
  trace_map key value ((k, v) ∷ entries) gcx = trace_map key value entries (value v (key k gcx))

  -- A tuple, its first field and the tuple of the others.
  unfoldable pub trace_tuple : Tracer A → Tracer B → A × B → List Ptr → List Ptr
  trace_tuple first rest (a, b) gcx = rest b (first a gcx)

-- The types with an impl. `deref` is `Box`, `Rc` or `Arc`; `cell` is `Cell` or `RefCell`; `vec` is a
-- slice, an array or a `Vec`; `items` is a `VecDeque` or a set.
pub data Ty : Type 0 where
  primitive gc_ref : Ty
  deref cell vec items option : Ty → Ty
  result map tuple : Ty → Ty → Ty

-- The values of a type. Of a primitive nothing is kept but a Boolean.
unfoldable pub El : Ty → Type 0
El Ty.primitive = Bool
El Ty.gc_ref = Ptr
El (Ty.deref t) = El t
El (Ty.cell t) = El t
El (Ty.vec t) = List (El t)
El (Ty.items t) = List (El t)
El (Ty.option t) = Option (El t)
El (Ty.result t u) = El t ⊎ El u
El (Ty.map t u) = List (El t × El u)
El (Ty.tuple t u) = El t × El u

unfoldable pub resolve : (t : Ty) → Tracer (El t)
unfolding El trace_gc_ref trace_primitive trace_deref trace_cell trace_slice trace_vec trace_items
    trace_option trace_result trace_map trace_tuple
resolve Ty.primitive = trace_primitive
resolve Ty.gc_ref = trace_gc_ref
resolve (Ty.deref t) = trace_deref (resolve t)
resolve (Ty.cell t) = trace_cell (resolve t)
resolve (Ty.vec t) = trace_vec (resolve t)
resolve (Ty.items t) = trace_items (resolve t)
resolve (Ty.option t) = trace_option (resolve t)
resolve (Ty.result t u) = trace_result (resolve t) (resolve u)
resolve (Ty.map t u) = trace_map (resolve t) (resolve u)
resolve (Ty.tuple t u) = trace_tuple (resolve t) (resolve u)

-- The traced nodes, the last first.
unfoldable pub gc_children : (t : Ty) → El t → List Ptr
unfolding resolve
gc_children t value = resolve t value []
