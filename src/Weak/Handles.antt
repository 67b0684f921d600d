-- ===== src/Weak/Handles.antt =====
-- `upgrade` by slots, and what taking a slot writes.
use gc_lite.Base.{
  ℕ, ◌^◌, ◌≡◌, ◌<◌, refl, ◌∙◌, ap, true, false, arith, ◌==◌, ◌∈◌, length, ==_iff, Bool-cases, inl,
  inr, subst, Option, some, none, get_elem?, set, get_elem?-set,
}
use gc_lite.Node.{Ptr}
use gc_lite.Heap.{GcHeap, partition_at}
use gc_lite.Weak.{index, version, is_null, new_weak, find_free, take_slot, read_slot, upgrade}
use gc_lite.Weak.Slots.{find_free-free, slots_for, slots_for-range, slots_for-kept, fresh_version}

-- The weak id of a node in a chain names a slot that holds the node under the id's version.
pub record IsWeak (h : GcHeap) : Type 0 where
  pub versions : (i v : ℕ) (o : Option Ptr) → get_elem? h.weak_slots i ≡ some (v, o) → v < 2 ^ 8
  pub handles :
      (p : Ptr)
      → p ∈ (partition_at h (h.mem p).partition_id).nodes
      → is_null (h.mem p).weak_id ≡ false
      → get_elem? h.weak_slots (index (h.mem p).weak_id) ≡ some (version (h.mem p).weak_id, some p)

read_slot-inv :
    (ver : ℕ) (o : Option (ℕ × Option Ptr)) (p : Ptr)
    → read_slot ver o ≡ some p
    → o ≡ some (ver, some p)
unfolding read_slot
read_slot-inv ver none p e = cc
read_slot-inv ver (some (v, none)) p e = ground arith
read_slot-inv ver (some (v, some q)) p e = elim (Bool-cases (v == ver)) [
  | inl same ↦
      let is : v ≡ ver = ground arith in
      let at : some q ≡ some p = rw same at e in
      ap some (ap (λ (x : ℕ). (x, some q)) is) ∙ ap (λ (x : Option Ptr). some (ver, x)) at
  | inr other ↦ cc (rw other at e)
]

pub upgrade-inv :
    (h : GcHeap) (id : ℕ) (p : Ptr)
    → upgrade h id ≡ some p
    → get_elem? h.weak_slots (index id) ≡ some (version id, some p)
unfolding upgrade
upgrade-inv h id p e = elim (Bool-cases (is_null id)) [
  | inl null ↦ cc (rw null at e)
  | inr named ↦ read_slot-inv (version id) (get_elem? h.weak_slots (index id)) p (rw named at e)
]

pub upgrade-eq :
    (h : GcHeap) (id : ℕ) (p : Ptr)
    → is_null id ≡ false
    → get_elem? h.weak_slots (index id) ≡ some (version id, some p)
    → upgrade h id ≡ some p
unfolding upgrade read_slot
upgrade-eq h id p named at =
    let same : version id == version id ≡ true = ground (arith, ==_iff (version id) (version id)) in
    rw (named, at, same)

module _ (h : GcHeap) (node : Ptr) where
  unfoldable pub slot : ℕ
  slot = find_free h.weak_slots

  unfoldable pub ver : ℕ
  ver = fresh_version h

  unfoldable pub taken : GcHeap
  taken = (take_slot h node).0

  pub slots_eq : taken.weak_slots ≡ set (slots_for h.weak_slots) slot (ver, some node)
  unfolding taken slot ver take_slot slots_for fresh_version
  slots_eq = refl

  pub id_eq : (take_slot h node).1 ≡ new_weak slot ver
  unfolding slot ver take_slot slots_for fresh_version
  id_eq = refl

  there : slot < length (slots_for h.weak_slots)
  unfolding slot
  there = slots_for-range h.weak_slots

  free_at : (i : ℕ) → slot == i ≡ true → i ≡ find_free h.weak_slots
  unfolding slot
  free_at i e = ground arith

  pub at_slot : get_elem? taken.weak_slots slot ≡ some (ver, some node)
  at_slot =
      rw (slots_eq, get_elem?-set (slots_for h.weak_slots) slot slot (ver, some node))
        (ground (arith, there, ==_iff slot slot))

  -- A slot that holds a node is left alone.
  pub kept_slot :
      (i v : ℕ) (p : Ptr)
      → get_elem? h.weak_slots i ≡ some (v, some p)
      → get_elem? taken.weak_slots i ≡ some (v, some p)
  kept_slot i v p e =
      rw (slots_eq, get_elem?-set (slots_for h.weak_slots) slot i (ver, some node))
        (elim (Bool-cases (slot == i)) [
          | inl same ↦
              let is : i ≡ find_free h.weak_slots = free_at i same in
              absurd (
                find_free-free h.weak_slots v p
                  (subst (λ j. get_elem? h.weak_slots j ≡ some (v, some p)) is e))
          | inr other ↦ rw other (slots_for-kept h.weak_slots i (v, some p) e)
        ])
