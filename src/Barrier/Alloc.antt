-- ===== src/Barrier/Alloc.antt =====
-- Allocation during a marking cycle.
use gc_lite.Base.{
  ℕ, ◌≡◌, ◌≢◌, refl, ◌∙◌, ap, sym, Bool, true, false, ◌&&◌, ◌||◌, List, ◌∷◌, arith, ◌==◌, contains,
  ◌∈◌, ◌∉◌, ==_iff, Bool-cases, inl, inr, Option, get_or-modify, length-modify, subst,
}
use gc_lite.Node.{GcHead, Ptr}
use gc_lite.Gctype.{GcTypeInfo}
use gc_lite.Heap.{GcPartition, GcHeap, partition_at, no_partition}
use gc_lite.Mem.{ok, alloc_node_mem, alloc_raw, alloc_root_raw, attach_node, attach_root}
use gc_lite.Mem.Install.{Installed, alloc_node_mem-Installed, map_ok-ok}
use gc_lite.Mark.Cycle.{IsSound}
use gc_lite.Barrier.{set_root_node}
use gc_lite.Barrier.Cycle.{IsCycle}
use gc_lite.Barrier.Write.{Attached}
use gc_lite.Barrier.Root.{set_root_node-IsCycle}

-- The address is in no chain: the allocator does not give out memory that a living node has.
abbrev pub Fresh : GcHeap → Ptr → Type 0
Fresh h p = (i : ℕ) → p ∉ (partition_at h i).nodes

module _ {h : GcHeap} {i : ℕ} {refs : List Ptr} {size : ℕ} {p : Ptr} {g : GcHeap}
    (v : Installed h i refs size p g) (fresh : Fresh h p)
    (known : (q : Ptr) → q ∈ refs → Attached h q) where
  -- The chains after the node is attached.
  chains :
      (j : ℕ) (q : Ptr)
      → contains (partition_at (attach_node g i p) j).nodes q
        ≡ ((i == j && p == q) || contains (partition_at h j).nodes q)
  unfolding attach_node
  chains j q = ground (
    arith,
    get_or-modify g.partitions i j (λ (par : GcPartition). record par { nodes = p ∷ par.nodes })
        no_partition,
    v.pars j,
    v.count,
    v.range,
    ==_iff i j,
  )

  rest :
      (j : ℕ)
      → ((partition_at (attach_node g i p) j).gray_list ≡ (partition_at h j).gray_list)
        × ((partition_at (attach_node g i p) j).marking ≡ (partition_at h j).marking)
  unfolding attach_node
  rest j =
      let at =
        get_or-modify g.partitions i j (λ (par : GcPartition). record par { nodes = p ∷ par.nodes })
          no_partition in
      (ground (arith, at, v.pars j), ground (arith, at, v.pars j))

  not_new : (q : Ptr) (j : ℕ) → q ∈ (partition_at h j).nodes → q ≢ p
  not_new q j m e =
      let there : p ∈ (partition_at h j).nodes = subst (λ x. x ∈ (partition_at h j).nodes) e m in
      ground (arith, fresh j)

  new-Attached : Attached (attach_node g i p) p
  unfolding attach_node
  new-Attached = rw (v.partition_id, chains i p) (ground (arith, ==_iff i i, ==_iff p p))

  old-Attached : (q : Ptr) → Attached h q → Attached (attach_node g i p) q
  unfolding attach_node
  old-Attached q at =
      let same = v.others q (not_new q (h.mem q).partition_id at) in
      rw (chains (g.mem q).partition_id q, same) (ground (arith, at))

  IsSound-attach : IsSound h → IsSound (attach_node g i p)
  unfolding attach_node
  IsSound-attach s = record {
    owned = λ j q m. elim (Bool-cases (contains (partition_at h j).nodes q)) [
      | inl old ↦
          ap (λ (n : GcHead). n.partition_id) (v.others q (not_new q j old)) ∙ s.owned j q old
      | inr new ↦
          let is : p ≡ q = ground (arith, chains j q, ==_iff p q) in
          subst (λ x. (g.mem x).partition_id ≡ j) is
            (v.partition_id ∙ ground (arith, chains j q, ==_iff i j))
    ];
    closed = λ a b m e. elim (Bool-cases (p == a)) [
      | inl new ↦
          let is : a ≡ p = ground arith in
          old-Attached b (known b (subst (λ l. b ∈ l) (ap g.payload is ∙ v.refs_eq) e))
      | inr old ↦
          let ne : a ≢ p = ground arith in
          let same = v.others a ne in
          old-Attached b (
            s.closed a b
              (ground (
                arith,
                chains (g.mem a).partition_id a,
                ap (λ (n : GcHead). n.partition_id) same,
                rw same at m,
              ))
              (subst (λ l. b ∈ l) (v.payloads a ne) e))
    ];
  }

  alloc-IsCycle : (pid : ℕ) → IsCycle h pid → IsCycle (attach_node g i p) pid
  unfolding attach_node
  alloc-IsCycle pid c =
      let (same_list, same_marking) = rest pid in
      let kept = λ (q : Ptr) (ne : q ≢ p). v.others q ne in
      record {
        range = omega (
          arith,
          c.range,
          v.count,
          length-modify g.partitions i
              (λ (par : GcPartition). record par { nodes = p ∷ par.nodes }),
        );
        marking = same_marking ∙ c.marking;
        sound = IsSound-attach c.sound;
        tricolor = rw same_list (record {
          inside = λ q m. ground (arith, chains pid q, c.tricolor.inside q);
          barrier = λ a b m k e n. elim (Bool-cases (p == a)) [
            | inl new ↦
                let is : a ≡ p = ground arith in absurd (ground (arith, v.color, rw is at k))
            | inr old ↦
                let ne : a ≢ p = ground arith in
                let m' : a ∈ (partition_at h pid).nodes = ground (arith, chains pid a) in
                let e' : b ∈ h.payload a = subst (λ l. b ∈ l) (v.payloads a ne) e in
                let at =
                  c.sound.closed a b
                    (subst (λ j. a ∈ (partition_at h j).nodes) (sym (c.sound.owned pid a m')) m')
                    e' in
                let ne' = not_new b (h.mem b).partition_id at in
                let n' : b ∈ (partition_at h pid).nodes =
                  ground (arith, chains pid b, ==_iff p b) in
                ground (arith, c.tricolor.barrier a b m', kept a ne, kept b ne')
          ];
          listed = λ q m k. elim (Bool-cases (p == q)) [
            | inl new ↦
                let is : q ≡ p = ground arith in absurd (ground (arith, v.color, rw is at k))
            | inr old ↦ ground (arith, chains pid q, c.tricolor.listed q, kept q (ground arith))
          ];
          rooted = λ q m k. elim (Bool-cases (p == q)) [
            | inl new ↦
                let is : q ≡ p = ground arith in absurd (ground (arith, v.unrooted, rw is at k))
            | inr old ↦ ground (arith, chains pid q, c.tricolor.rooted q, kept q (ground arith))
          ];
          flagged = λ q m k. elim (Bool-cases (p == q)) [
            | inl new ↦
                let is : q ≡ p = ground arith in absurd (ground (arith, v.unlisted, rw is at k))
            | inr old ↦ ground (arith, chains pid q, c.tricolor.flagged q, kept q (ground arith))
          ];
        });
      }

  attach_root-eq : attach_root g i p ≡ set_root_node (attach_node g i p) p
  unfolding attach_root set_root_node attach_node
  attach_root-eq = rw (v.unrooted.0, v.partition_id) refl

  alloc_root-IsCycle : (pid : ℕ) → IsCycle h pid → IsCycle (attach_root g i p) pid
  alloc_root-IsCycle pid c =
      rw attach_root-eq
        (set_root_node-IsCycle (attach_node g i p) p pid (alloc-IsCycle pid c) new-Attached)

-- `alloc_raw` keeps the cycle's invariant: the new node is white, and nothing refers to it.
pub alloc_raw-IsCycle :
    (malloc : Option Ptr) (layout_ok : GcTypeInfo → Bool) (h : GcHeap) (i dtype : ℕ)
    (refs : List Ptr) (g : GcHeap) (p : Ptr) (pid : ℕ)
    → alloc_raw malloc layout_ok h i dtype refs ≡ ok (g, p)
    → Fresh h p
    → ((q : Ptr) → q ∈ refs → Attached h q)
    → IsCycle h pid
    → IsCycle g pid
unfolding alloc_raw
alloc_raw-IsCycle malloc layout_ok h i dtype refs g p pid e fresh known c =
    let ((k, q), made, same) =
      map_ok-ok (λ (r : GcHeap × Ptr). (attach_node r.0 i r.1, r.1))
        (alloc_node_mem malloc layout_ok h i dtype refs false) (g, p) e in
    let is : q ≡ p = ap (λ (r : GcHeap × Ptr). r.1) same in
    let at = alloc_node_mem-Installed malloc layout_ok h i dtype refs false k q made in
    subst (λ (x : GcHeap). IsCycle x pid) (ap (λ (r : GcHeap × Ptr). r.0) same)
      (alloc-IsCycle at (subst (λ x. Fresh h x) (sym is) fresh) known pid c)

-- `alloc_root_raw` keeps it too: in a cycle the new root is shaded.
pub alloc_root_raw-IsCycle :
    (malloc : Option Ptr) (layout_ok : GcTypeInfo → Bool) (h : GcHeap) (i dtype : ℕ)
    (refs : List Ptr) (g : GcHeap) (p : Ptr) (pid : ℕ)
    → alloc_root_raw malloc layout_ok h i dtype refs ≡ ok (g, p)
    → Fresh h p
    → ((q : Ptr) → q ∈ refs → Attached h q)
    → IsCycle h pid
    → IsCycle g pid
unfolding alloc_root_raw
alloc_root_raw-IsCycle malloc layout_ok h i dtype refs g p pid e fresh known c =
    let ((k, q), made, same) =
      map_ok-ok (λ (r : GcHeap × Ptr). (attach_root r.0 i r.1, r.1))
        (alloc_node_mem malloc layout_ok h i dtype refs true) (g, p) e in
    let is : q ≡ p = ap (λ (r : GcHeap × Ptr). r.1) same in
    let at = alloc_node_mem-Installed malloc layout_ok h i dtype refs true k q made in
    subst (λ (x : GcHeap). IsCycle x pid) (ap (λ (r : GcHeap × Ptr). r.0) same)
      (alloc_root-IsCycle at (subst (λ x. Fresh h x) (sym is) fresh) known pid c)
