-- ===== src/Lifetime/Dropped.antt =====
-- The heap after its drop.
use gc_lite.Base.{
  ◌≡◌, refl, ap, ◌∙◌, subst, Bool, false, List, [], ◌∷◌, keep, contains, count, ◌∈◌, arith, ==_iff,
}
use gc_lite.Node.{Ptr}
use gc_lite.Heap.{GcHeap, GcScopeState, ScopeStack}
use gc_lite.Scope.{unprotect, set_local, clear, cached}
use gc_lite.Partition.{clear_scopes}
use gc_lite.Sweep.{Collected, drop_pass}
use gc_lite.Sweep.Result.{needs_drop}
use gc_lite.Lifetime.{drain_stacks, chains_of, without_nodes, drop_heap}
use gc_lite.Lifetime.Release.{flat, dispose_chains-Released}

-- What the clearing of scopes leaves alone.
record Cleared (h g : GcHeap) : Type 0 where
  partitions : g.partitions ≡ h.partitions
  living : g.dbg_living_nodes ≡ h.dbg_living_nodes
  node_dtypes : g.node_dtypes ≡ h.node_dtypes
  dtype : (n : Ptr) → (g.mem n).dtype ≡ (h.mem n).dtype

Cleared-refl : (h : GcHeap) → Cleared h h
Cleared-refl h = record { partitions = refl; living = refl; node_dtypes = refl; dtype = λ n. refl }

Cleared-trans : (h g k : GcHeap) → Cleared h g → Cleared g k → Cleared h k
Cleared-trans h g k a b = record {
  partitions = b.partitions ∙ a.partitions;
  living = b.living ∙ a.living;
  node_dtypes = b.node_dtypes ∙ a.node_dtypes;
  dtype = λ n. b.dtype n ∙ a.dtype n;
}

set_local-Cleared : (h : GcHeap) (n : Ptr) (b : Bool) → Cleared h (set_local h n b)
unfolding set_local
set_local-Cleared h n b = record {
  partitions = refl;
  living = refl;
  node_dtypes = refl;
  dtype = λ q. ground (arith, ==_iff n q);
}

unprotect-Cleared : (ns : List Ptr) (h : GcHeap) → Cleared h (unprotect ns h)
unfolding unprotect
unprotect-Cleared [] h = Cleared-refl h
unprotect-Cleared (n ∷ ns) h =
    Cleared-trans h (set_local h n false) _ (set_local-Cleared h n false)
      (unprotect-Cleared ns (set_local h n false))

clear_scopes-Cleared :
    (scopes : List GcScopeState) (h : GcHeap) → Cleared h (clear_scopes h scopes).0
unfolding clear_scopes clear
clear_scopes-Cleared [] h = Cleared-refl h
clear_scopes-Cleared (s ∷ scopes) h =
    Cleared-trans h (unprotect (cached s) h) _ (unprotect-Cleared (cached s) h)
      (clear_scopes-Cleared scopes (unprotect (cached s) h))

drain_stacks-Cleared : (stacks : List ScopeStack) (h : GcHeap) → Cleared h (drain_stacks h stacks).0
unfolding drain_stacks
drain_stacks-Cleared [] h = Cleared-refl h
drain_stacks-Cleared (stack ∷ stacks) h =
    Cleared-trans h (clear_scopes h stack.list).0 _ (clear_scopes-Cleared stack.list h)
      (drain_stacks-Cleared stacks (clear_scopes h stack.list).0)

nothing_left : (ns : List Ptr) → ((q : Ptr) → contains ns q ≡ false) → ns ≡ []
nothing_left [] e = refl
nothing_left (n ∷ ns) e = absurd (ground (arith, e n, ==_iff n n))

-- Drop a heap in which each node that lives is in the chain of a partition, and in which the passes of
-- the registry cover the types of these nodes. Afterwards no node lives, as the debug assertion there
-- demands, whether it was a root, in a scope or garbage; and the payloads of the chains' nodes were
-- dropped, those whose type has a drop function, each as often as its node stands in a chain.
pub drop_heap-living :
    (h : GcHeap)
    → ((n : Ptr) → n ∈ flat (chains_of h.partitions) → drop_pass h n ∈ h.node_dtypes.drop_passes)
    → ((n : Ptr) → n ∈ h.dbg_living_nodes → n ∈ flat (chains_of h.partitions))
    → ((drop_heap h).heap.dbg_living_nodes ≡ [])
      × ((q : Ptr)
          → count q (drop_heap h).dropped
            ≡ count q (keep (needs_drop h) (flat (chains_of h.partitions))))
unfolding drop_heap count
drop_heap-living h cover listed =
    let r = drain_stacks h h.scope_stacks in
    let c = drain_stacks-Cleared h.scope_stacks h in
    let start : Collected = record {
      heap = record r.0 { scope_stacks = r.1; partitions = without_nodes r.0.partitions };
      freed_bytes = 0;
      dropped = [];
    } in
    let chains : flat (chains_of r.0.partitions) ≡ flat (chains_of h.partitions) =
      ap (λ ps. flat (chains_of ps)) c.partitions in
    let v =
      dispose_chains-Released (λ n. (h.mem n).dtype) h.node_dtypes (chains_of r.0.partitions) start
        (c.dtype, c.node_dtypes) (λ n m. cover n (subst (λ l. n ∈ l) chains m)) in
    (
      nothing_left _ (λ q. ground (
        arith,
        v.living q,
        listed q,
        ap (λ l. contains l q) chains,
        ap (λ l. contains l q) c.living,
      )),
      λ q. omega (arith, v.dropped q, ap (λ l. count q (keep (needs_drop h) l)) chains),
    )
