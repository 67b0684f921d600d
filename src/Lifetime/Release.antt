-- ===== src/Lifetime/Release.antt =====
-- The drop of the heap gives back every node of every chain.
use gc_lite.Base.{
  ℕ, ◌+◌, ◌≡◌, refl, sym, ap, ◌∙◌, subst, Bool, not, ◌&&◌, ◌||◌, List, [], ◌∷◌, ◌++◌, ◌==◌, keep,
  contains, contains-keep, contains-append, count, count-append, ◌∈◌, arith, ==_iff, Bool-cases,
  inl, inr,
}
use gc_lite.Node.{Ptr, GcHead}
use gc_lite.Gctype.{GcTypeRegistry, type_info}
use gc_lite.Heap.{GcHeap}
use gc_lite.Mark.{is_empty}
use gc_lite.Mem.{dispose, dispose_mem_only, drop_payload}
use gc_lite.Sweep.{Collected, dispose_all_pass, dispose_all_passes, dispose_all_nodes}
use gc_lite.Sweep.Passes.{nil_of_empty}
use gc_lite.Lifetime.{dispose_chains}

-- One node disposed of with its payload.
record Gone (h g : GcHeap) (n : Ptr) : Type 0 where
  mem : g.mem ≡ h.mem
  node_dtypes : g.node_dtypes ≡ h.node_dtypes
  living :
      (q : Ptr) → contains g.dbg_living_nodes q ≡ (contains h.dbg_living_nodes q && not (n == q))

dispose-Gone : (h : GcHeap) (n : Ptr) → Gone h (dispose h n).0 n
unfolding dispose dispose_mem_only
dispose-Gone h n = record {
  mem = ground arith;
  node_dtypes = ground arith;
  living = λ q. ground (arith, contains-keep (λ q. not (n == q)) h.dbg_living_nodes q);
}

-- All nodes of some chains.
unfoldable pub flat : List (List Ptr) → List Ptr
flat [] = []
flat (ns ∷ rest) = ns ++ flat rest

keep-append : (f : Ptr → Bool) (xs ys : List Ptr) → keep f (xs ++ ys) ≡ keep f xs ++ keep f ys
keep-append f [] ys = refl
keep-append f (x ∷ xs) ys = elim (Bool-cases (f x)) [
  | inl in_ ↦ rw in_ (ap (λ l. x ∷ l) (keep-append f xs ys))
  | inr out ↦ rw out (keep-append f xs ys)
]

-- The type ids in the headers and the types, which stay.
module _ (dtype_of : Ptr → ℕ) (types : GcTypeRegistry) where
  abbrev Unchanged : GcHeap → Type 0
  Unchanged g = ((n : Ptr) → (g.mem n).dtype ≡ dtype_of n) × (g.node_dtypes ≡ types)

  abbrev pub pass_of : Ptr → ℕ
  pass_of n = (type_info types (dtype_of n)).drop_pass

  abbrev pub droppable : Ptr → Bool
  droppable n = (type_info types (dtype_of n)).drop_fn

  -- The nodes `taken` are disposed of: none of them lives, and their payloads were dropped.
  pub record Released (taken : List Ptr) (c e : Collected) : Type 0 where
    pub same : Unchanged e.heap
    pub living :
        (q : Ptr)
        → contains e.heap.dbg_living_nodes q
          ≡ (contains c.heap.dbg_living_nodes q && not (contains taken q))
    pub dropped : (q : Ptr) → count q e.dropped ≡ count q c.dropped + count q (keep droppable taken)

  Released-none : (c : Collected) → Unchanged c.heap → Released [] c c
  unfolding count
  Released-none c v = record { same = v; living = λ q. ground arith; dropped = λ q. omega arith }

  -- One node of a pass, then the others.
  abbrev disposed_of : Ptr → Collected → Collected
  disposed_of n c =
      let d = dispose c.heap n in
      record { heap = d.0; freed_bytes = c.freed_bytes + d.1; dropped = c.dropped ++ d.2 }

  Unchanged-disposed_of :
      (n : Ptr) (c : Collected) → Unchanged c.heap → Unchanged (disposed_of n c).heap
  Unchanged-disposed_of n c v =
      let g = dispose-Gone c.heap n in
      (λ q. ap (λ (m : Ptr → GcHead). (m q).dtype) g.mem ∙ v.0 q, g.node_dtypes ∙ v.1)

  Released-cons :
      (n : Ptr) (taken : List Ptr) (c e : Collected)
      → Unchanged c.heap
      → Released taken (disposed_of n c) e
      → Released (n ∷ taken) c e
  unfolding count dispose drop_payload
  Released-cons n taken c e v r =
      let g = dispose-Gone c.heap n in
      let fits : (type_info c.heap.node_dtypes (c.heap.mem n).dtype).drop_fn ≡ droppable n =
        rw (v.0 n, v.1) refl in
      record {
        same = r.same;
        living = λ q. ground (arith, r.living q, g.living q);
        dropped = λ q. r.dropped q ∙ elim (Bool-cases (droppable n)) [
          | inl yes_ ↦ rw (fits, yes_) (omega (arith, count-append q c.dropped (n ∷ [])))
          | inr no_ ↦ rw (fits, no_) (omega (arith, count-append q c.dropped []))
        ];
      }

  Released-trans :
      (a b ns : List Ptr) (c d e : Collected)
      → ((q : Ptr) → contains ns q ≡ (contains a q || contains b q))
      → ((q : Ptr)
          → count q (keep droppable ns) ≡ count q (keep droppable a) + count q (keep droppable b))
      → Released a c d
      → Released b d e
      → Released ns c e
  Released-trans a b ns c d e both all r s = record {
    same = s.same;
    living = λ q. ground (arith, r.living q, s.living q, both q);
    dropped = λ q. omega (arith, r.dropped q, s.dropped q, all q);
  }

  abbrev mine : ℕ → Ptr → Bool
  mine pass n = pass_of n == pass

  dispose_all_pass-Released :
      (pass : ℕ) (ns : List Ptr) (c : Collected)
      → Unchanged c.heap
      → ((dispose_all_pass pass ns c).0 ≡ keep (λ n. not (mine pass n)) ns)
        × Released (keep (mine pass) ns) c (dispose_all_pass pass ns c).1
  unfolding dispose_all_pass
  dispose_all_pass-Released pass [] c v = (refl, Released-none c v)
  dispose_all_pass-Released pass (n ∷ ns) c v =
      let at : ((type_info c.heap.node_dtypes (c.heap.mem n).dtype).drop_pass == pass)
          ≡ mine pass n =
        rw (v.0 n, v.1) refl in
      elim (Bool-cases (mine pass n)) [
        | inl goes ↦
            let (left, r) =
              dispose_all_pass-Released pass ns (disposed_of n c) (Unchanged-disposed_of n c v) in
            rw (at, goes) (left, Released-cons n (keep (mine pass) ns) c _ v r)
        | inr stays ↦
            let (left, r) = dispose_all_pass-Released pass ns c v in
            rw (at, stays) (ap (λ l. n ∷ l) left, r)
      ]

  count-split :
      (pass : ℕ) (ns : List Ptr) (q : Ptr)
      → count q (keep droppable ns)
        ≡ count q (keep droppable (keep (mine pass) ns))
          + count q (keep droppable (keep (λ n. not (mine pass n)) ns))
  unfolding count
  count-split pass [] q = omega arith
  count-split pass (n ∷ ns) q = ground (arith, count-split pass ns q)

  contains-split :
      (pass : ℕ) (ns : List Ptr) (q : Ptr)
      → contains ns q
        ≡ (contains (keep (mine pass) ns) q || contains (keep (λ n. not (mine pass n)) ns) q)
  contains-split pass ns q =
      ground (arith, contains-keep (mine pass) ns q, contains-keep (λ n. not (mine pass n)) ns q)

  no_node : (ns : List Ptr) → ((n : Ptr) → n ∈ ns → pass_of n ∈ []) → ns ≡ []
  no_node [] none_ = refl
  no_node (n ∷ ns) none_ = absurd (ground (arith, none_ n, ==_iff n n))

  dispose_all_passes-Released :
      (passes : List ℕ) (ns : List Ptr) (c : Collected)
      → Unchanged c.heap
      → ((n : Ptr) → n ∈ ns → pass_of n ∈ passes)
      → Released ns c (dispose_all_passes passes ns c).1
  unfolding dispose_all_passes
  dispose_all_passes-Released [] ns c v cover =
      subst (λ l. Released l c c) (sym (no_node ns cover)) (Released-none c v)
  dispose_all_passes-Released (pass ∷ passes) ns c v cover =
      let r = dispose_all_pass pass ns c in
      let (left, first) = dispose_all_pass-Released pass ns c v in
      let over = keep (λ n. not (mine pass n)) ns in
      elim (Bool-cases (is_empty r.0)) [
        | inl done ↦ rw done (
            Released-trans (keep (mine pass) ns) over ns c r.1 r.1 (contains-split pass ns)
              (count-split pass ns) first
              (subst (λ l. Released l r.1 r.1) (sym (nil_of_empty r.0 done) ∙ left)
                (Released-none r.1 first.same)))
        | inr more ↦
            let e = (dispose_all_passes passes r.0 r.1).1 in
            let later : Released r.0 r.1 e =
              dispose_all_passes-Released passes r.0 r.1 first.same (λ n m. ground (
                arith,
                cover n,
                contains-keep (λ n. not (mine pass n)) ns n,
                ap (λ l. contains l n) left,
                m,
                ==_iff pass (pass_of n),
                ==_iff (pass_of n) pass,
              )) in
            rw more (
              Released-trans (keep (mine pass) ns) over ns c r.1 e (contains-split pass ns)
                (count-split pass ns) first (subst (λ l. Released l r.1 e) left later))
      ]

  -- The payloads of one chain are dropped after those of the chains before it.
  Released-after :
      (ns : List Ptr) (c r : Collected)
      → Released ns (record { heap = c.heap; freed_bytes = 0; dropped = [] }) r
      → Released ns c (record {
        heap = r.heap;
        freed_bytes = c.freed_bytes + r.freed_bytes;
        dropped = c.dropped ++ r.dropped;
      })
  unfolding count
  Released-after ns c r v = record {
    same = v.same;
    living = v.living;
    dropped = λ q. omega (arith, v.dropped q, count-append q c.dropped r.dropped);
  }

  pub dispose_chains-Released :
      (chains : List (List Ptr)) (c : Collected)
      → Unchanged c.heap
      → ((n : Ptr) → n ∈ flat chains → pass_of n ∈ types.drop_passes)
      → Released (flat chains) c (dispose_chains chains c)
  unfolding dispose_chains dispose_all_nodes flat
  dispose_chains-Released [] c v cover = Released-none c v
  dispose_chains-Released (ns ∷ rest) c v cover =
      let r = dispose_all_nodes c.heap ns in
      let c' : Collected = record {
        heap = r.heap;
        freed_bytes = c.freed_bytes + r.freed_bytes;
        dropped = c.dropped ++ r.dropped;
      } in
      let passes : c.heap.node_dtypes.drop_passes ≡ types.drop_passes =
        ap (λ t. t.drop_passes) v.1 in
      let first : Released ns c c' = Released-after ns c r (
        dispose_all_passes-Released c.heap.node_dtypes.drop_passes ns
          (record { heap = c.heap; freed_bytes = 0; dropped = [] }) v
          (λ n m. rw passes (cover n (ground (arith, m, contains-append ns (flat rest) n))))) in
      Released-trans ns (flat rest) (ns ++ flat rest) c c' _ (contains-append ns (flat rest))
        (λ q.
          ap (λ l. count q l) (keep-append droppable ns (flat rest))
          ∙ count-append q (keep droppable ns) (keep droppable (flat rest)))
        first
        (dispose_chains-Released rest c' first.same
          (λ n m. cover n (ground (arith, m, contains-append ns (flat rest) n))))
