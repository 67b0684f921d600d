-- ===== src/Weak/Slots.antt =====
-- Weak ids and slots: what `downgrade` hands out upgrades to the node, and disturbs no other id.
use gc_lite.Base.{
  ℕ, zero, suc, ◌^◌, ◌≡◌, ◌≢◌, ◌<◌, ◌≤◌, List, [], ◌∷◌, ◌++◌, arith, ◌==◌, if◌then◌else◌, length,
  ==_iff, Bool-cases, inl, inr, Option, some, none, get_elem?, get_or, length-append,
}
use gc_lite.Node.{Ptr}
use gc_lite.Heap.{GcHeap}
use gc_lite.Weak.{index, version, new_weak, find_free, no_slot, next_version}

-- An id packs an index of 24 bits and a version of 8 bits, and both are read back.
pub new_weak-index-version :
    (i v : ℕ) → i < 2 ^ 24 → v < 2 ^ 8 → (index (new_weak i v) ≡ i) × (version (new_weak i v) ≡ v)
unfolding index version new_weak
new_weak-index-version i v lt small = (omega arith, omega arith)

-- The slot that `find_free` names is free, or past the end.
pub find_free-free :
    (slots : List (ℕ × Option Ptr)) (v : ℕ) (p : Ptr)
    → get_elem? slots (find_free slots) ≢ some (v, some p)
unfolding find_free
find_free-free [] v p e = cc
find_free-free ((w, none) ∷ slots) v p e = cc
find_free-free ((w, some q) ∷ slots) v p e = find_free-free slots v p e

pub find_free-le-length : (slots : List (ℕ × Option Ptr)) → find_free slots ≤ length slots
unfolding find_free
find_free-le-length [] = omega arith
find_free-le-length ((w, none) ∷ slots) = omega arith
find_free-le-length ((w, some q) ∷ slots) = omega (arith, find_free-le-length slots)

get_elem?-append :
    (slots : List (ℕ × Option Ptr)) (s : ℕ × Option Ptr) (i : ℕ) (t : ℕ × Option Ptr)
    → get_elem? slots i ≡ some t
    → get_elem? (slots ++ s ∷ []) i ≡ some t
get_elem?-append [] s i t e = cc
get_elem?-append (x ∷ slots) s zero t e = e
get_elem?-append (x ∷ slots) s (suc i) t e = get_elem?-append slots s i t e

-- The slots that `take_slot` writes into.
unfoldable pub slots_for : List (ℕ × Option Ptr) → List (ℕ × Option Ptr)
slots_for slots = if find_free slots == length slots then slots ++ no_slot ∷ [] else slots

pub slots_for-range : (slots : List (ℕ × Option Ptr)) → find_free slots < length (slots_for slots)
unfolding slots_for
slots_for-range slots = elim (Bool-cases (find_free slots == length slots)) [
  | inl e ↦ rw e (omega (arith, length-append slots (no_slot ∷ []), find_free-le-length slots))
  | inr e ↦
      rw e (ground (arith, find_free-le-length slots, ==_iff (find_free slots) (length slots)))
]

pub slots_for-kept :
    (slots : List (ℕ × Option Ptr)) (i : ℕ) (t : ℕ × Option Ptr)
    → get_elem? slots i ≡ some t
    → get_elem? (slots_for slots) i ≡ some t
unfolding slots_for
slots_for-kept slots i t e = elim (Bool-cases (find_free slots == length slots)) [
  | inl b ↦ rw b (get_elem?-append slots no_slot i t e)
  | inr b ↦ rw b e
]

-- The version that a free slot gets.
unfoldable pub fresh_version : GcHeap → ℕ
fresh_version h = next_version (get_or (slots_for h.weak_slots) (find_free h.weak_slots) no_slot).0

pub next_version-small : (v : ℕ) → v < 2 ^ 8 → (0 < next_version v) × (next_version v < 2 ^ 8)
unfolding next_version
next_version-small v lt = (ground arith, ground arith)
