-- ===== src/Sweep/InPlace.antt =====
-- The chain swept in place, pass by pass, against its dead nodes disposed of after the walk.
use gc_lite.Base.{
  ℕ, ◌≡◌, refl, sym, ap, ◌∙◌, true, false, not, List, [], ◌∷◌, ◌==◌, if◌then◌else◌, keep, count,
  contains, contains-keep, ◌∈◌, arith, ==_iff, Bool-cases, inl, inr,
}
use gc_lite.Node.{Ptr}
use gc_lite.Heap.{GcHeap, partition_at}
use gc_lite.Mark.{is_empty}
use gc_lite.Sweep.{
  Disposal, is_dead, drop_pass, dispose_node, dispose_pass, dispose_passes, finish_arena,
  sweep_dispose, sweep_drop_payloads,
}
use gc_lite.Sweep.Passes.{nil_of_empty}
use gc_lite.Sweep.Result.{needs_drop, drop_payloads-keep}
use gc_lite.Sweep.Single.{Sweeping, sweep_passes, sweep_link}
use gc_lite.Sweep.Renode.{
  renode, renode_all, renode-renode, dispose_passes-renode, finish_arena-renode,
}
use gc_lite.Sweep.Agrees.{
  is_live, Unchanged, Unchanged-dispose_node, Agrees, sweep_passes-Agrees, dispose_step,
  dispose_passes_step, none_dead,
}

module _ (h : GcHeap) (pid : ℕ) where
  -- What a pass leaves, and all passes that cover the nodes.
  rest-dispose_pass :
      (pass : ℕ) (ns : List Ptr) (d : Disposal)
      → Unchanged h pid d
      → (dispose_pass pid pass ns d).0 ≡ keep (λ n. not (drop_pass h n == pass)) ns
  unfolding dispose_pass
  rest-dispose_pass pass [] d v = refl
  rest-dispose_pass pass (n ∷ ns) d v =
      let at : (drop_pass d.heap n == pass) ≡ (drop_pass h n == pass) = rw (v.0, v.1) refl in
      elim (Bool-cases (drop_pass h n == pass)) [
        | inl mine ↦
            ap (λ (r : List Ptr × Disposal). r.0) (dispose_step h pid pass n ns d true (at ∙ mine))
            ∙ (rest-dispose_pass pass ns (dispose_node pid n d) (Unchanged-dispose_node h pid n d v)
                ∙ rw mine refl)
        | inr other ↦
            ap (λ (r : List Ptr × Disposal). r.0)
              (dispose_step h pid pass n ns d false (at ∙ other))
            ∙ (ap (λ l. n ∷ l) (rest-dispose_pass pass ns d v) ∙ rw other refl)
      ]

  same-dispose_pass :
      (pass : ℕ) (ns : List Ptr) (d : Disposal)
      → Unchanged h pid d
      → Unchanged h pid (dispose_pass pid pass ns d).1
  unfolding dispose_pass
  same-dispose_pass pass [] d v = v
  same-dispose_pass pass (n ∷ ns) d v = elim (Bool-cases (drop_pass d.heap n == pass)) [
    | inl mine ↦
        rw mine
          (same-dispose_pass pass ns (dispose_node pid n d) (Unchanged-dispose_node h pid n d v))
    | inr other ↦ rw other (same-dispose_pass pass ns d v)
  ]

  no_node : (ns : List Ptr) → ((n : Ptr) → n ∈ ns → n ∈ []) → ns ≡ []
  no_node [] none_ = refl
  no_node (n ∷ ns) none_ = absurd (ground (arith, none_ n, ==_iff n n))

  rest-dispose_passes :
      (passes : List ℕ) (ns : List Ptr) (d : Disposal)
      → Unchanged h pid d
      → ((n : Ptr) → n ∈ ns → drop_pass h n ∈ passes)
      → (dispose_passes pid passes ns d).0 ≡ []
  unfolding dispose_passes
  rest-dispose_passes [] ns d v cover = no_node ns cover
  rest-dispose_passes (pass ∷ passes) ns d v cover =
      let r = dispose_pass pid pass ns d in
      let left = rest-dispose_pass pass ns d v in
      elim (Bool-cases (is_empty r.0)) [
        | inl done ↦
            ap (λ (q : List Ptr × Disposal). q.0)
              (dispose_passes_step h pid pass passes ns d true done)
            ∙ nil_of_empty r.0 done
        | inr more ↦
            ap (λ (q : List Ptr × Disposal). q.0)
              (dispose_passes_step h pid pass passes ns d false more)
            ∙ rest-dispose_passes passes r.0 r.1 (same-dispose_pass pass ns d v) (λ n m. ground (
              arith,
              cover n,
              contains-keep (λ n. not (drop_pass h n == pass)) ns n,
              ap (λ l. contains l n) left,
              m,
              ==_iff pass (drop_pass h n),
              ==_iff (drop_pass h n) pass,
            ))
      ]

  all_live : (link : List Ptr) → keep (is_dead h) link ≡ [] → link ≡ keep (is_live h pid) link
  all_live [] e = refl
  all_live (n ∷ link) e =
      let alive = none_dead h pid n link e in
      rw alive (ap (λ l. n ∷ l) (all_live link (rw alive at e)))

  -- The chain swept in place, against its dead nodes disposed of after the walk.
  module _
      (cover : (n : Ptr)
        → n ∈ (partition_at h pid).nodes
        → drop_pass h n ∈ h.node_dtypes.drop_passes) where
    abbrev chain : List Ptr
    chain = (partition_at h pid).nodes

    abbrev dead_nodes : List Ptr
    dead_nodes = keep (is_dead h) chain

    abbrev base : Disposal
    base = record { heap = h; holes = []; freed_bytes = 0 }

    abbrev swept_in_place : List Ptr × Sweeping
    swept_in_place =
        sweep_passes pid h.node_dtypes.drop_passes chain
          (record { disposal = renode_all pid [] base; dropped = []; calls = [] })

    abbrev disposed : List Ptr × Disposal
    disposed = dispose_passes pid h.node_dtypes.drop_passes dead_nodes base

    abbrev settled : GcHeap
    settled = finish_arena pid disposed.1.holes disposed.1.heap

    agreement :
        Agrees h pid chain swept_in_place.0
          (dispose_passes pid h.node_dtypes.drop_passes dead_nodes (renode_all pid [] base)).0
          (record { disposal = renode_all pid [] base; dropped = []; calls = [] })
          swept_in_place.1
          (dispose_passes pid h.node_dtypes.drop_passes dead_nodes (renode_all pid [] base)).1
    agreement =
        sweep_passes-Agrees h pid h.node_dtypes.drop_passes chain
          (record { disposal = renode_all pid [] base; dropped = []; calls = [] })
          (renode_all pid [] base) refl (refl, refl)

    in_place : swept_in_place.1.disposal ≡ renode_all pid [] disposed.1
    in_place =
        agreement.disposal
        ∙ ap (λ (r : List Ptr × Disposal). r.1)
            (dispose_passes-renode pid h.node_dtypes.drop_passes [] dead_nodes base)

    none_left :
        (dispose_passes pid h.node_dtypes.drop_passes dead_nodes (renode_all pid [] base)).0 ≡ []
    none_left =
        rest-dispose_passes h.node_dtypes.drop_passes dead_nodes (renode_all pid [] base)
          (refl, refl) (λ n m. cover n (ground (arith, m, contains-keep (is_dead h) chain n)))

    survivors : swept_in_place.0 ≡ keep (is_live h pid) chain
    survivors = all_live swept_in_place.0 (agreement.rest ∙ none_left) ∙ agreement.stays

    -- The list that is put back.
    put_back :
        (link : List Ptr) (f : GcHeap)
        → (if is_empty link then renode pid [] f else renode pid link (renode pid [] f))
          ≡ renode pid link f
    put_back [] f = refl
    put_back (n ∷ link) f = renode-renode pid (n ∷ link) [] f

    heap-sweep_link :
        (sweep_link h pid chain).heap ≡ renode pid (keep (is_live h pid) chain) settled
    unfolding sweep_link
    heap-sweep_link =
        ap
          (λ (d : Disposal).
            let f = finish_arena pid d.holes d.heap in
            if is_empty swept_in_place.0 then f else renode pid swept_in_place.0 f)
          in_place
        ∙ (ap (λ f. if is_empty swept_in_place.0 then f else renode pid swept_in_place.0 f)
              (finish_arena-renode pid [] disposed.1.holes disposed.1.heap)
            ∙ (put_back swept_in_place.0 settled ∙ ap (λ l. renode pid l settled) survivors))

    three_steps :
        dispose_passes pid h.node_dtypes.drop_passes dead_nodes
          (renode_all pid (keep (is_live h pid) chain) base)
        ≡ (disposed.0, renode_all pid (keep (is_live h pid) chain) disposed.1)
    three_steps =
        dispose_passes-renode pid h.node_dtypes.drop_passes (keep (is_live h pid) chain) dead_nodes
          base

    abbrev split_heap : GcHeap
    split_heap = renode pid (keep (is_live h pid) chain) h

    heap-sweep_dispose :
        (sweep_dispose split_heap pid dead_nodes).0
        ≡ renode pid (keep (is_live h pid) chain) settled
    unfolding sweep_dispose
    heap-sweep_dispose =
        ap (λ (r : List Ptr × Disposal). finish_arena pid r.1.holes r.1.heap) three_steps
        ∙ finish_arena-renode pid (keep (is_live h pid) chain) disposed.1.holes disposed.1.heap

    pub sweep_link-sweep_dispose :
        ((sweep_link h pid chain).heap ≡ (sweep_dispose split_heap pid dead_nodes).0)
        × ((sweep_link h pid chain).freed_bytes ≡ (sweep_dispose split_heap pid dead_nodes).1)
        × ((q : Ptr)
            → count q (sweep_link h pid chain).dropped
              ≡ count q (sweep_drop_payloads split_heap dead_nodes))
    unfolding sweep_link sweep_dispose count
    sweep_link-sweep_dispose = (
      heap-sweep_link ∙ sym heap-sweep_dispose,
      ap (λ (d : Disposal). d.freed_bytes) in_place
          ∙ sym (ap (λ (r : List Ptr × Disposal). r.1.freed_bytes) three_steps),
      λ q. omega (
        arith,
        agreement.payloads q,
        ap (λ l. count q (keep (needs_drop h) l)) none_left,
        ap (λ l. count q l) (drop_payloads-keep split_heap dead_nodes),
      ),
    )
