-- ===== src/Sweep/Collect.antt =====
-- What a collection of an idle partition does.
use gc_lite.Base.{
  ℕ, ◌+◌, ◌≡◌, ◌≢◌, ◌↔◌, refl, ◌∙◌, ap, Bool, true, false, not, ◌&&◌, List, [], ◌∷◌, arith, ◌==◌,
  contains, ◌∈◌, ◌∉◌, Bool-cases, inl, inr, keep, sym, subst, contains-keep, Option, some, none,
  ==_iff, get_elem?,
}
use gc_lite.Node.{Ptr}
use gc_lite.Gctype.{type_info}
use gc_lite.Heap.{GcHeap, partition_at}
use gc_lite.Weak.{index, is_null, upgrade, version, read_slot}
use gc_lite.Mark.Invariant.{Reach}
use gc_lite.Mark.Cycle.{region, IsIdle, black_of_Reach}
use gc_lite.Mark.Prepare.{length-mark_all}
use gc_lite.Sweep.{is_dead, Collected, sweep_all, garbage_collect}
use gc_lite.Sweep.Dispose.{total_size, any_hits, hits, slot_free, slot_free_at}
use gc_lite.Sweep.Result.{IsSwept, dead, live, needs_drop, size_of_dead}
use gc_lite.Sweep.Accounts.{IsAccounted, sum_used-less}
use gc_lite.Sweep.Facts.{
  IsReady, Facts, live_of_Reach, live-Reach, same_nodes, same_used, same_size, dead_size,
  Swept-facts, rounds, garbage_collect-eq,
}

-- The collection of the partition ends with a result that has the property.
abbrev pub Collects : (Collected → Type 0) → GcHeap → ℕ → Type 0
Collects P h pid = (c : Collected) × (garbage_collect (rounds h pid) h pid ≡ some c) × P c

abbrev pub chain : Collected → ℕ → List Ptr
chain c pid = (partition_at c.heap pid).nodes

read_slot-free :
    (ver : ℕ) (o : Option (ℕ × Option Ptr)) → slot_free o ≡ true → read_slot ver o ≡ none
unfolding read_slot
read_slot-free ver none e = refl
read_slot-free ver (some (v, none)) e = ground arith
read_slot-free ver (some (v, some p)) e = cc

upgrade_free : (g : GcHeap) (id : ℕ) → slot_free_at g (index id) ≡ true → upgrade g id ≡ none
unfolding upgrade
upgrade_free g id free =
    ground (arith, read_slot-free (version id) (get_elem? g.weak_slots (index id)))

keep-same :
    (p q : Ptr → Bool) (ns : List Ptr) → ((n : Ptr) → n ∈ ns → p n ≡ q n) → keep p ns ≡ keep q ns
keep-same p q [] same = refl
keep-same p q (n ∷ ns) same =
    ground (arith, same n, keep-same p q ns (λ m i. same m (ground arith)))

keep-keep : (p q : Ptr → Bool) (ns : List Ptr) → keep q (keep p ns) ≡ keep (λ n. p n && q n) ns
keep-keep p q [] = refl
keep-keep p q (n ∷ ns) = ground (arith, keep-keep p q ns)

module _ (h : GcHeap) (pid : ℕ) (v : IsReady h pid) where
  pub collects :
      (P : Collected → Type 0)
      → ((k : GcHeap) → Facts h pid k → IsSwept pid k (sweep_all k pid) → P (sweep_all k pid))
      → Collects P h pid
  collects P have =
      let (k, f, e) = garbage_collect-eq h pid v in (sweep_all k pid, e, have k f (Swept-facts f v))

  module _ (k : GcHeap) (f : Facts h pid k) (c : Collected) (s : IsSwept pid k c) where
    contains-chain :
        (p : Ptr)
        → contains (chain c pid) p ≡ (not (is_dead k p) && contains (partition_at h pid).nodes p)
    contains-chain p =
        rw
          (
            s.nodes,
            contains-keep (λ n. not (is_dead k n)) (partition_at k pid).nodes p,
            same_nodes f pid,
          )
          refl

    pub chain_iff : (p : Ptr) → (p ∈ chain c pid) ↔ Reach (region h pid) p
    chain_iff p = (
      λ i. live-Reach f p (ground (arith, contains-chain p)) (ground (arith, contains-chain p)),
      λ w. ground (arith, contains-chain p, live_of_Reach f p w, (black_of_Reach f.marked w).0),
    )

    gone_iff :
        (p : Ptr)
        → contains (dead k pid) p
          ≡ (contains (partition_at h pid).nodes p && not (contains (chain c pid) p))
    gone_iff p =
        rw (contains-keep (is_dead k) (partition_at k pid).nodes p, same_nodes f pid)
          (ground (arith, contains-chain p))

    total_live :
        total_size c.heap.node_dtypes c.heap.mem (chain c pid)
        ≡ total_size k.node_dtypes k.mem (live k pid)
    total_live = rw (s.mem, s.node_dtypes, s.nodes)

    -- Both accounts fall by the bytes reported.
    freed_iff :
        (c.freed_bytes + (partition_at c.heap pid).memory_used ≡ (partition_at h pid).memory_used)
        × (c.freed_bytes + c.heap.total_memory_used ≡ h.total_memory_used)
    freed_iff = (
      omega (arith, s.freed, s.used, same_used f pid),
      omega (arith, s.freed, s.total, f.frame.total_memory_used),
    )

    total_other :
        (j : ℕ)
        → j ≢ pid
        → (partition_at c.heap j).memory_used ≡ total_size c.heap.node_dtypes c.heap.mem (chain c j)
    total_other j ne =
        s.others j ne
        ∙ same_used f j
        ∙ v.accounted.used j
        ∙ sym (
            rw (s.mem, s.node_dtypes, s.chains j ne, same_nodes f j)
              (same_size f (partition_at h j).nodes))

    IsAccounted-swept : IsAccounted c.heap
    IsAccounted-swept = record {
      used = λ j. elim (Bool-cases (j == pid)) [
        | inl here ↦
            let at : j ≡ pid = ground arith in
            rw at (omega (arith, s.used, same_used f pid, dead_size f v.accounted, total_live))
        | inr other ↦ total_other j (ground arith)
      ];
      total = omega (
        arith,
        s.total,
        f.frame.total_memory_used,
        v.accounted.total,
        sum_used-less h.partitions c.heap.partitions pid (size_of_dead k pid)
            (s.count ∙ f.frame.count ∙ length-mark_all h.partitions) v.idle.range
            (s.used ∙ same_used f pid) (λ j ne. s.others j ne ∙ same_used f j),
      );
    }

    needs_drop-same : (p : Ptr) → needs_drop k p ≡ needs_drop h p
    needs_drop-same p =
        ap (λ t. (type_info t (k.mem p).dtype).drop_fn) f.frame.node_dtypes
        ∙ ap (λ d. (type_info h.node_dtypes d).drop_fn) (f.frame.heads p).dtype

    -- The payloads dropped, by the chain that is left.
    dropped_eq :
        c.dropped
        ≡ keep (λ p. not (contains (chain c pid) p) && needs_drop h p) (partition_at h pid).nodes
    dropped_eq =
        s.dropped
        ∙ keep-keep (is_dead k) (needs_drop k) (partition_at k pid).nodes
        ∙ rw (same_nodes f pid) (
            keep-same _ _ (partition_at h pid).nodes
              (λ p i. ground (arith, contains-chain p, f.frame.heads p, needs_drop-same p)))

    survivors_eq : chain c pid ≡ keep (contains (chain c pid)) (partition_at h pid).nodes
    survivors_eq =
        s.nodes
        ∙ rw (same_nodes f pid)
            (keep-same _ _ (partition_at h pid).nodes (λ p i. ground (arith, contains-chain p)))

    unlisted_swept : (p : Ptr) → p ∈ (partition_at h pid).nodes → (c.heap.mem p).gray_listed ≡ false
    unlisted_swept p i = rw s.mem (elim (Bool-cases (k.mem p).gray_listed) [
      | inl listed ↦
          cc (subst (λ g. p ∈ g) f.marked.empty (f.marked.cycle.tricolor.flagged p i listed))
      | inr not_ ↦ not_
    ])

    IsIdle-swept : IsIdle c.heap pid
    IsIdle-swept = record {
      range = omega (arith, s.count, f.marked.cycle.range);
      idle = s.marking;
      empty = s.gray_list ∙ f.marked.empty;
      unlisted = λ p i. unlisted_swept p (ground (arith, contains-chain p));
    }

    any_hits-mem :
        (p : Ptr) (ns : List Ptr) (i : ℕ)
        → p ∈ ns
        → hits k.mem p i ≡ true
        → any_hits k.mem ns i ≡ true
    unfolding any_hits
    any_hits-mem p [] i m e = cc
    any_hits-mem p (n ∷ ns) i m e = ground (arith, any_hits-mem p ns i, ==_iff n p)

    upgrade_gone :
        (p : Ptr) (id : ℕ)
        → p ∈ (partition_at h pid).nodes
        → p ∉ chain c pid
        → is_null (h.mem p).weak_id ≡ false
        → index id ≡ index (h.mem p).weak_id
        → upgrade c.heap id ≡ none
    upgrade_gone p id i o weak same = upgrade_free c.heap id (
        ground (
          arith,
          s.slots (index id),
          any_hits-mem p (dead k pid) (index id),
          gone_iff p,
          f.frame.heads p,
        ))

  -- In a heap between collections (chains and references are sound, the partition is idle, the
  -- accounts are right, each size is below 2^31, the drop passes cover the types),
  -- `garbage_collect` ends within as many marking rounds as the chain has nodes and one, and the nodes
  -- left in the partition's chain are exactly those that a path inside the partition joins to one of
  -- its root or local nodes.
  pub garbage_collect-Reach :
      Collects (λ c. (p : Ptr) → (p ∈ chain c pid) ↔ Reach (region h pid) p) h pid
  garbage_collect-Reach =
      collects (λ c. (p : Ptr) → (p ∈ chain c pid) ↔ Reach (region h pid) p)
        (λ k f s. chain_iff k f (sweep_all k pid) s)

  -- In a heap between collections (chains and references are sound, the partition is idle, the
  -- accounts are right, each size is below 2^31, the drop passes cover the types),
  -- `garbage_collect` ends, the bytes that it reports are the fall of the partition's account and of
  -- the heap's, and afterwards each partition again counts the bytes of its chain, and the heap those
  -- of all partitions.
  pub garbage_collect-freed_bytes :
      Collects
        (λ c.
          (c.freed_bytes + (partition_at c.heap pid).memory_used ≡ (partition_at h pid).memory_used)
          × (c.freed_bytes + c.heap.total_memory_used ≡ h.total_memory_used)
          × IsAccounted c.heap)
        h
        pid
  garbage_collect-freed_bytes = collects _ λ k f s.
      let (used, total) = freed_iff k f (sweep_all k pid) s in
      (used, total, IsAccounted-swept k f (sweep_all k pid) s)

  -- In a heap between collections (chains and references are sound, the partition is idle, the
  -- accounts are right, each size is below 2^31, the drop passes cover the types),
  -- `garbage_collect` ends, and the payloads dropped are those of the nodes that left the chain, once
  -- for each place in the chain and in its order, where the type has a drop function.
  pub garbage_collect-dropped :
      Collects
        (λ c.
          c.dropped
          ≡ keep (λ p. not (contains (chain c pid) p) && needs_drop h p) (partition_at h pid).nodes)
        h
        pid
  garbage_collect-dropped = collects _ λ k f s. dropped_eq k f (sweep_all k pid) s

  -- In a heap between collections (chains and references are sound, the partition is idle, the
  -- accounts are right, each size is below 2^31, the drop passes cover the types), take a node of the
  -- chain with a weak id, which no path inside the partition joins to a root or local node of it.
  -- `garbage_collect` ends, and then every weak id that names the node's slot upgrades to nothing,
  -- whatever its version.
  pub garbage_collect-upgrade :
      (p : Ptr) (id : ℕ)
      → p ∈ (partition_at h pid).nodes
      → ¬ Reach (region h pid) p
      → is_null (h.mem p).weak_id ≡ false
      → index id ≡ index (h.mem p).weak_id
      → Collects (λ c. upgrade c.heap id ≡ none) h pid
  garbage_collect-upgrade p id i unreached weak same =
      collects (λ c. upgrade c.heap id ≡ none)
        λ k f s.
          upgrade_gone k f (sweep_all k pid) s p id i
            (elim (Bool-cases (contains (chain (sweep_all k pid) pid) p)) [
              | inl there ↦ absurd (unreached ((chain_iff k f (sweep_all k pid) s p).0 there))
              | inr gone ↦ gone
            ])
            weak same

  -- In a heap between collections (chains and references are sound, the partition is idle, the
  -- accounts are right, each size is below 2^31, the drop passes cover the types),
  -- `garbage_collect` ends, the survivors stay in the chain's order, every other chain is as before,
  -- and the partition is idle again.
  pub garbage_collect-chains :
      Collects
        (λ c.
          (chain c pid ≡ keep (contains (chain c pid)) (partition_at h pid).nodes)
          × ((j : ℕ) → j ≢ pid → chain c j ≡ (partition_at h j).nodes)
          × IsIdle c.heap pid)
        h
        pid
  garbage_collect-chains = collects _ λ k f s. (
    survivors_eq k f (sweep_all k pid) s,
    λ j ne. s.chains j ne ∙ same_nodes f j,
    IsIdle-swept k f (sweep_all k pid) s,
  )
