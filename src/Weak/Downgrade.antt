-- ===== src/Weak/Downgrade.antt =====
-- `downgrade` on a heap whose weak ids are right: the new id, the old ids, and the heap's ids after.
use gc_lite.Base.{
  some-inj, ℕ, zero, suc, ◌-◌, ◌^◌, ◌≡◌, ◌<◌, refl, ◌∙◌, ap, sym, false, List, [], ◌∷◌, arith, ◌==◌,
  if◌then◌else◌, ◌∈◌, length, ==_iff, Bool-cases, inl, inr, subst, Option, some, none, leb,
  get_elem?, get_or, get_elem?-set, ◌++◌,
}
use gc_lite.Node.{Ptr}
use gc_lite.Heap.{GcHeap, partition_at}
use gc_lite.Weak.{
  index, version, is_null, new_weak, find_free, no_slot, take_slot, downgrade, upgrade,
}
use gc_lite.Weak.Slots.{
  new_weak-index-version, find_free-le-length, slots_for, fresh_version, next_version-small,
}
use gc_lite.Weak.Handles.{
  IsWeak, upgrade-inv, upgrade-eq, slot, ver, taken, slots_eq, id_eq, at_slot, kept_slot,
}

abbrev version_of : Option (ℕ × Option Ptr) → ℕ
version_of none = 0
version_of (some (v, o)) = v

abbrev Small : List (ℕ × Option Ptr) → Type 0
Small slots = (i v : ℕ) (o : Option Ptr) → get_elem? slots i ≡ some (v, o) → v < 2 ^ 8

Small-append : (slots : List (ℕ × Option Ptr)) → Small slots → Small (slots ++ no_slot ∷ [])
Small-append [] s zero v o e = omega (arith, ap (λ (x : Option (ℕ × Option Ptr)). version_of x) e)
Small-append [] s (suc i) v o e = cc
Small-append (x ∷ slots) s zero v o e = s zero v o e
Small-append (x ∷ slots) s (suc i) v o e = Small-append slots (λ j w q at. s (suc j) w q at) i v o e

Small-get_or :
    (slots : List (ℕ × Option Ptr)) (i : ℕ) → Small slots → (get_or slots i no_slot).0 < 2 ^ 8
Small-get_or [] i s = omega arith
Small-get_or ((v, o) ∷ slots) zero s = s zero v o refl
Small-get_or (x ∷ slots) (suc i) s = Small-get_or slots i (λ j w q at. s (suc j) w q at)

fresh_version-small : (h : GcHeap) → IsWeak h → (0 < fresh_version h) × (fresh_version h < 2 ^ 8)
unfolding fresh_version slots_for
fresh_version-small h w =
    next_version-small _ (elim (Bool-cases (find_free h.weak_slots == length h.weak_slots)) [
      | inl e ↦ rw e (Small-get_or _ _ (Small-append h.weak_slots w.versions))
      | inr e ↦ rw e (Small-get_or _ _ w.versions)
    ])

module _ (h : GcHeap) (node : Ptr) (w : IsWeak h)
    (at : node ∈ (partition_at h (h.mem node).partition_id).nodes)
    (room : length h.weak_slots < 2 ^ 24 - 1) where
  id : ℕ
  id = new_weak (slot h node) (ver h node)

  packed : (index id ≡ slot h node) × (version id ≡ ver h node)
  unfolding id slot ver
  packed =
      new_weak-index-version (find_free h.weak_slots) (fresh_version h)
        (omega (arith, room, find_free-le-length h.weak_slots)) (fresh_version-small h w).1

  named : is_null id ≡ false
  unfolding is_null ver
  named = ground (arith, packed, fresh_version-small h w)

  held : get_elem? (taken h node).weak_slots (index id) ≡ some (version id, some node)
  held = rw (packed.0, packed.1) (at_slot h node)

  heads : (p : Ptr) → ((taken h node).mem p).partition_id ≡ (h.mem p).partition_id
  unfolding taken take_slot
  heads p = ground (arith, ==_iff node p)

  weak_id_at :
      (p : Ptr) → ((taken h node).mem p).weak_id ≡ (if node == p then id else (h.mem p).weak_id)
  unfolding taken take_slot id slot ver slots_for fresh_version
  weak_id_at p = ground (arith, ==_iff node p)

  chains_eq : (taken h node).partitions ≡ h.partitions
  unfolding taken take_slot
  chains_eq = refl

  small_of :
      (v : ℕ) (o : Option Ptr)
      → ◌≡◌ {A = Option (ℕ × Option Ptr)} (some (ver h node, some node)) (some (v, o))
      → v < 2 ^ 8
  unfolding ver
  small_of v o e =
      let is = ap (λ (x : Option (ℕ × Option Ptr)). version_of x) e in
      omega (arith, fresh_version-small h w, is)

  Small-slots_for : Small (slots_for h.weak_slots)
  unfolding slots_for
  Small-slots_for = elim (Bool-cases (find_free h.weak_slots == length h.weak_slots)) [
    | inl e ↦ rw e (Small-append h.weak_slots w.versions)
    | inr e ↦ rw e w.versions
  ]

  Small-taken :
      (i v : ℕ) (o : Option Ptr)
      → slot h node == i ≡ false
      → get_elem? (taken h node).weak_slots i ≡ some (v, o)
      → v < 2 ^ 8
  Small-taken i v o other e = Small-slots_for i v o (
      rw
        (
          slots_eq h node,
          get_elem?-set (slots_for h.weak_slots) (slot h node) i (ver h node, some node),
          other,
        )
        at e)

  eq_null :
      (p : Ptr)
      → (h.mem p).weak_id ≡ ((taken h node).mem p).weak_id
      → is_null ((taken h node).mem p).weak_id ≡ false
      → is_null (h.mem p).weak_id ≡ false
  eq_null p e n = ap is_null e ∙ n

  taken-IsWeak : IsWeak (taken h node)
  taken-IsWeak = record {
    versions = λ i v o e. elim (Bool-cases (slot h node == i)) [
      | inl same ↦
          let here : get_elem? (taken h node).weak_slots i ≡ some (ver h node, some node) =
            subst (λ j. get_elem? (taken h node).weak_slots j ≡ some (ver h node, some node))
              (ground arith) (at_slot h node) in
          small_of v o (sym here ∙ e)
      | inr other ↦ Small-taken i v o other e
    ];
    handles = λ p m named_p. elim (Bool-cases (node == p)) [
      | inl same ↦
          let is : node ≡ p = ground arith in
          let eq : id ≡ ((taken h node).mem p).weak_id = ground (arith, weak_id_at p) in
          subst
            (λ (x : ℕ). get_elem? (taken h node).weak_slots (index x) ≡ some (version x, some p)) eq
            (subst
              (λ (q : Ptr).
                get_elem? (taken h node).weak_slots (index id) ≡ some (version id, some q))
              is held)
      | inr other ↦
          let eq : (h.mem p).weak_id ≡ ((taken h node).mem p).weak_id =
            ground (arith, weak_id_at p) in
          let old =
            w.handles p
              (subst (λ (i : ℕ). p ∈ (partition_at h i).nodes) (heads p) (rw chains_eq at m))
              (eq_null p eq named_p) in
          subst
            (λ (x : ℕ). get_elem? (taken h node).weak_slots (index x) ≡ some (version x, some p)) eq
            (kept_slot h node (index (h.mem p).weak_id) (version (h.mem p).weak_id) p old)
    ];
  }

abbrev Downgraded : GcHeap → Ptr → GcHeap → ℕ → Type 0
Downgraded h node g id =
    (upgrade g id ≡ some node)
    × ((other : ℕ) (p : Ptr) → upgrade h other ≡ some p → upgrade g other ≡ some p)
    × IsWeak g

upgrade-named : (h : GcHeap) (id : ℕ) (p : Ptr) → upgrade h id ≡ some p → is_null id ≡ false
unfolding upgrade
upgrade-named h id p e = elim (Bool-cases (is_null id)) [
  | inl null ↦ cc (rw null at e)
  | inr ok_ ↦ ok_
]

Downgraded-take_slot :
    (h : GcHeap) (node : Ptr)
    → IsWeak h
    → node ∈ (partition_at h (h.mem node).partition_id).nodes
    → length h.weak_slots < 2 ^ 24 - 1
    → Downgraded h node (take_slot h node).0 (take_slot h node).1
unfolding taken id
Downgraded-take_slot h node w at room = (
  subst (λ (x : ℕ). upgrade (taken h node) x ≡ some node) (sym (id_eq h node))
      (upgrade-eq (taken h node) (id h node w at room) node (named h node w at room)
        (held h node w at room)),
  λ other p u.
      upgrade-eq (taken h node) other p (upgrade-named h other p u)
        (kept_slot h node (index other) (version other) p (upgrade-inv h other p u)),
  taken-IsWeak h node w at room,
)

downgrade-Downgraded :
    (h : GcHeap) (node : Ptr) (g : GcHeap) (id : ℕ)
    → IsWeak h
    → node ∈ (partition_at h (h.mem node).partition_id).nodes
    → downgrade h node ≡ some (g, id)
    → Downgraded h node g id
unfolding downgrade
downgrade-Downgraded h node g id w at e = elim (Bool-cases (is_null (h.mem node).weak_id)) [
  | inr has ↦
      let same : (h, (h.mem node).weak_id) ≡ (g, id) = some-inj (rw has at e) in
      subst (λ (r : GcHeap × ℕ). Downgraded h node r.0 r.1) same
        (upgrade-eq h (h.mem node).weak_id node has (w.handles node at has), λ other p u. u, w)
  | inl new ↦ elim (Bool-cases (leb (2 ^ 24 - 1) (length h.weak_slots))) [
    | inl full ↦ cc (rw (new, full) at e)
    | inr room ↦
        let same : take_slot h node ≡ (g, id) = some-inj (rw (new, room) at e) in
        subst (λ (r : GcHeap × ℕ). Downgraded h node r.0 r.1) same
          (Downgraded-take_slot h node w at (ground arith))
  ]
]

-- In a heap where the weak ids of the nodes in the chains are right, `downgrade` of a node in a chain
-- gives an id that upgrades to the node, and the heap's weak ids are right again.
pub downgrade-upgrade :
    (h : GcHeap) (node : Ptr) (g : GcHeap) (id : ℕ)
    → IsWeak h
    → node ∈ (partition_at h (h.mem node).partition_id).nodes
    → downgrade h node ≡ some (g, id)
    → (upgrade g id ≡ some node) × IsWeak g
downgrade-upgrade h node g id w at e =
    let (up, others, again) = downgrade-Downgraded h node g id w at e in (up, again)

-- In a heap where the weak ids of the nodes in the chains are right, after `downgrade` of a node in a
-- chain every id that upgraded to a node upgrades to the same node.
pub downgrade-upgrade_other :
    (h : GcHeap) (node : Ptr) (g : GcHeap) (id other : ℕ) (p : Ptr)
    → IsWeak h
    → node ∈ (partition_at h (h.mem node).partition_id).nodes
    → downgrade h node ≡ some (g, id)
    → upgrade h other ≡ some p
    → upgrade g other ≡ some p
downgrade-upgrade_other h node g id other p w at e u =
    let (up, others, again) = downgrade-Downgraded h node g id w at e in others other p u
