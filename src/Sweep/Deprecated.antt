-- ===== src/Sweep/Deprecated.antt =====
-- The whole of the deprecated `sweep`, branch by branch.
use gc_lite.Base.{
  ℕ, ◌≡◌, refl, sym, ap, ◌∙◌, subst, true, false, ◌&&◌, List, [], count, contains, ◌∈◌, length, leb,
  arith, Bool-cases, inl, inr, none, some, Option,
}
use gc_lite.Node.{Ptr}
use gc_lite.Heap.{GcHeap, partition_at, modify_partition, set_marking}
use gc_lite.Mark.{is_empty}
use gc_lite.Sweep.{
  Collected, drop_pass, sweep_unlink, sweep_chain, split_chain, sweep_all, sweep_dispose,
  sweep_drop_payloads,
}
use gc_lite.Sweep.Result.{nodes_at_rest}
use gc_lite.Sweep.Single.{sweep_link, sweep}
use gc_lite.Sweep.InPlace.{sweep_link-sweep_dispose}

-- Two collections come to the same: heap, bytes, and payloads dropped, in some order.
pub record Same (a b : Collected) : Type 0 where
  pub heap : a.heap ≡ b.heap
  pub freed_bytes : a.freed_bytes ≡ b.freed_bytes
  pub dropped : (q : Ptr) → count q a.dropped ≡ count q b.dropped

Same-refl : (a : Collected) → Same a a
Same-refl a = record { heap = refl; freed_bytes = refl; dropped = λ q. refl }

module _ (k : GcHeap) (pid : ℕ) where
  abbrev unmarked : GcHeap
  unmarked = modify_partition k pid (set_marking false)

  abbrev unlinked : GcHeap × List Ptr
  unlinked = split_chain unmarked pid

  -- The rest of the three steps, on what the first returns.
  steps_after : GcHeap × Option (List Ptr) → Collected
  steps_after r = elim r.1 [
    | none ↦ record { heap = r.0; freed_bytes = 0; dropped = [] }
    | some white ↦
        let s = sweep_dispose r.0 pid white in
        record { heap = s.0; freed_bytes = s.1; dropped = sweep_drop_payloads r.0 white }
  ]

  sweep_all-steps_after :
      (r : GcHeap × Option (List Ptr)) → sweep_unlink k pid ≡ r → sweep_all k pid ≡ steps_after r
  unfolding sweep_all steps_after
  sweep_all-steps_after r e = ap steps_after e

  in_each_case :
      (a : Collected) (r : GcHeap × Option (List Ptr))
      → sweep k pid ≡ a
      → sweep_unlink k pid ≡ r
      → Same a (steps_after r)
      → Same (sweep k pid) (sweep_all k pid)
  in_each_case a r e e' s =
      subst (λ c. Same c (sweep_all k pid)) (sym e)
        (subst (λ c. Same a c) (sym (sweep_all-steps_after r e')) s)

  abbrev untouched : GcHeap → Collected
  untouched g = record { heap = g; freed_bytes = 0; dropped = [] }

  sweep_outside : leb (length k.partitions) pid ≡ true → Same (sweep k pid) (sweep_all k pid)
  unfolding sweep sweep_unlink steps_after
  sweep_outside outside =
      in_each_case (untouched k) (k, none) (rw outside refl) (rw outside refl)
        (Same-refl (untouched k))

  sweep_marking :
      leb (length k.partitions) pid ≡ false
      → ((partition_at k pid).marking && is_empty (partition_at k pid).gray_list) ≡ false
      → Same (sweep k pid) (sweep_all k pid)
  unfolding sweep sweep_unlink steps_after
  sweep_marking inside not_yet =
      in_each_case (untouched k) (k, none) (rw (inside, not_yet) refl) (rw (inside, not_yet) refl)
        (Same-refl (untouched k))

  sweep_ready :
      (cover : (n : Ptr)
        → n ∈ (partition_at unmarked pid).nodes
        → drop_pass k n ∈ k.node_dtypes.drop_passes)
      → leb (length k.partitions) pid ≡ false
      → ((partition_at k pid).marking && is_empty (partition_at k pid).gray_list) ≡ true
      → Same (sweep k pid) (sweep_all k pid)
  unfolding sweep sweep_unlink sweep_chain split_chain steps_after
  sweep_ready cover inside ready = elim (Bool-cases (is_empty (partition_at unmarked pid).nodes)) [
    | inl none_ ↦
        in_each_case (untouched unmarked) (unmarked, none) (rw (inside, ready, none_) refl)
          (rw (inside, ready, none_) refl) (Same-refl (untouched unmarked))
    | inr some_ ↦
        let both = sweep_link-sweep_dispose unmarked pid cover in
        in_each_case (sweep_link unmarked pid (partition_at unmarked pid).nodes)
          (unlinked.0, some unlinked.1) (rw (inside, ready, some_) refl)
          (rw (inside, ready, some_) refl)
          (record { heap = both.0; freed_bytes = both.1; dropped = both.2 })
  ]

-- The deprecated `sweep` against the sweep in three steps, on any heap and partition in which the
-- registry's passes cover the types of the partition's nodes. Both leave the same heap and report the
-- same number of bytes, and they drop the same payloads, each as often, if not in the same order. This
-- holds on every branch: for a partition that does not exist, one whose marking is not over, an empty
-- chain, and a chain with nodes to take out or without.
pub sweep-sweep_all :
    (k : GcHeap) (pid : ℕ)
    → ((n : Ptr) → n ∈ (partition_at k pid).nodes → drop_pass k n ∈ k.node_dtypes.drop_passes)
    → Same (sweep k pid) (sweep_all k pid)
sweep-sweep_all k pid cover = elim (Bool-cases (leb (length k.partitions) pid)) [
  | inl outside ↦ sweep_outside k pid outside
  | inr inside ↦
      elim (Bool-cases ((partition_at k pid).marking && is_empty (partition_at k pid).gray_list)) [
        | inr not_yet ↦ sweep_marking k pid inside not_yet
        | inl ready ↦
            sweep_ready k pid
              (λ n m.
                cover n
                  (ap (λ l. contains l n) (sym (nodes_at_rest k pid (ground (arith, inside)))) ∙ m))
              inside ready
      ]
]
