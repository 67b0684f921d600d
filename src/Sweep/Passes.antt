-- ===== src/Sweep/Passes.antt =====
-- The passes of `sweep_dispose` over the white list: together they dispose of every node once.
use gc_lite.Base.{
  ℕ, ◌+◌, ◌≤◌, ◌<◌, ◌^◌, ◌≡◌, refl, ◌∙◌, Bool, true, not, ◌||◌, List, [], ◌∷◌, arith, ◌==◌, ◌∈◌,
  ==_iff, Bool-cases, inl, inr, length, keep, sym, subst, contains-keep,
}
use gc_lite.Node.{GcHead, Ptr}
use gc_lite.Gctype.{GcTypeRegistry, type_info}
use gc_lite.Heap.{GcHeap, partition_at}
use gc_lite.Mem.{gross_size}
use gc_lite.Mark.{is_empty}
use gc_lite.Sweep.{Disposal, drop_pass, dispose_node, dispose_pass, dispose_passes}
use gc_lite.Sweep.Books.{Less}
use gc_lite.Sweep.Dispose.{
  total_size, any_hits, Charged, Swept, Swept-node, Swept-none, Swept-trans, any_hits-append,
}

pub nil_of_empty : (xs : List Ptr) → is_empty xs ≡ true → xs ≡ []
nil_of_empty [] e = refl
nil_of_empty (x ∷ xs) e = cc

module _ (types : GcTypeRegistry) (mem : Ptr → GcHead) where
  -- Whether a node is disposed of in a pass.
  abbrev pub in_pass : ℕ → Ptr → Bool
  in_pass pass n = (type_info types (mem n).dtype).drop_pass == pass

  abbrev pub passes_over : ℕ → Ptr → Bool
  passes_over pass n = not (in_pass pass n)

  total_size-split :
      (pass : ℕ) (ns : List Ptr)
      → total_size types mem (keep (in_pass pass) ns)
          + total_size types mem (keep (passes_over pass) ns)
        ≡ total_size types mem ns
  unfolding total_size
  total_size-split pass [] = omega arith
  total_size-split pass (n ∷ ns) = ground (arith, total_size-split pass ns)

  any_hits-split :
      (pass : ℕ) (ns : List Ptr) (i : ℕ)
      → (any_hits mem (keep (in_pass pass) ns) i || any_hits mem (keep (passes_over pass) ns) i)
        ≡ any_hits mem ns i
  unfolding any_hits
  any_hits-split pass [] i = refl
  any_hits-split pass (n ∷ ns) i = ground (arith, any_hits-split pass ns i)

  Charged-keep :
      (pid : ℕ) (p : Ptr → Bool) (ns : List Ptr)
      → Charged types mem pid ns
      → Charged types mem pid (keep p ns)
  Charged-keep pid p [] c = tt
  Charged-keep pid p (n ∷ ns) c = ground (arith, Charged-keep pid p ns c.2)

  -- The heap still has the headers, and both accounts hold at least `size` bytes.
  pub record Holds (pid size : ℕ) (h : GcHeap) : Type 0 where
    pub mem_eq : h.mem ≡ mem
    pub types_eq : h.node_dtypes ≡ types
    pub range : pid < length h.partitions
    pub used : size ≤ (partition_at h pid).memory_used
    pub total : size ≤ h.total_memory_used

  module _ (pid : ℕ) where
    Holds-Less :
        {size rest : ℕ} {h g : GcHeap}
        → Holds pid (size + rest) h
        → Less pid size h g
        → Holds pid rest g
    Holds-Less v l = record {
      mem_eq = l.kept.mem ∙ v.mem_eq;
      types_eq = l.kept.node_dtypes ∙ v.types_eq;
      range = omega (arith, l.kept.count, v.range);
      used = omega (arith, l.books.used, v.used);
      total = omega (arith, l.books.total, v.total);
    }

    Swept-head :
        (n : Ptr) (rest : ℕ) (d : Disposal)
        → (mem n).partition_id ≡ pid
        → (type_info types (mem n).dtype).layout_size < 2 ^ 31
        → Holds pid ((type_info types (mem n).dtype).layout_size + rest) d.heap
        → Swept pid (type_info types (mem n).dtype).layout_size (n ∷ []) d (dispose_node pid n d)
    Swept-head n rest d own small v =
        let size : gross_size d.heap n ≡ (type_info types (mem n).dtype).layout_size =
          rw (v.mem_eq, v.types_eq) refl in
        rw (← size) (
          Swept-node pid n d (rw v.mem_eq own) (omega arith) v.range (omega (arith, v.used))
            (omega (arith, v.total)))

    -- One pass: what is left, and what is gone.
    dispose_pass_lem :
        (pass : ℕ) (ns : List Ptr) (d : Disposal)
        → Charged types mem pid ns
        → Holds pid (total_size types mem (keep (in_pass pass) ns)) d.heap
        → ((dispose_pass pid pass ns d).0 ≡ keep (passes_over pass) ns)
          × Swept pid
              (total_size types mem (keep (in_pass pass) ns))
              (keep (in_pass pass) ns)
              d
              (dispose_pass pid pass ns d).1
    unfolding dispose_pass total_size
    dispose_pass_lem pass [] d c v = (refl, Swept-none pid d)
    dispose_pass_lem pass (n ∷ ns) d c v =
        let here : (drop_pass d.heap n == pass) ≡ in_pass pass n = rw (v.mem_eq, v.types_eq) refl in
        elim (Bool-cases (in_pass pass n)) [
          | inl mine ↦
              let size = (type_info types (mem n).dtype).layout_size in
              let rest = total_size types mem (keep (in_pass pass) ns) in
              let v' : Holds pid (size + rest) d.heap = rw mine at v in
              let s = Swept-head n rest d c.0 c.1 v' in
              let (left, t) =
                dispose_pass_lem pass ns (dispose_node pid n d) c.2 (Holds-Less v' s.less) in
              rw (here, mine) (rw left refl, Swept-trans (size + rest) refl s t)
          | inr other ↦
              let (left, t) = dispose_pass_lem pass ns d c.2 (rw other at v) in
              rw (here, other) (rw left refl, t)
        ]

    Holds-weaken : {a : ℕ} (b : ℕ) {h : GcHeap} → Holds pid (a + b) h → Holds pid a h
    Holds-weaken b v = record {
      mem_eq = v.mem_eq;
      types_eq = v.types_eq;
      range = v.range;
      used = omega (arith, v.used);
      total = omega (arith, v.total);
    }

    Swept-list :
        {size size' : ℕ} {ns ms : List Ptr} {d e : Disposal}
        → size ≡ size'
        → ((i : ℕ) → any_hits d.heap.mem ns i ≡ any_hits d.heap.mem ms i)
        → Swept pid size ns d e
        → Swept pid size' ms d e
    Swept-list {ns} {ms} {d} {e} same hit s =
        rw (← same)
          (record { less = s.less; freed = s.freed; slots = λ i. rw (← hit i) (s.slots i) })

    -- What the passes leave and dispose of.
    abbrev pub Cleared : List Ptr → Disposal → List Ptr × Disposal → Type 0
    Cleared ns d r = (r.0 ≡ []) × Swept pid (total_size types mem ns) ns d r.1

    abbrev pub Covered : List ℕ → List Ptr → Type 0
    Covered passes ns = (n : Ptr) → n ∈ ns → (type_info types (mem n).dtype).drop_pass ∈ passes

    Covered-keep :
        (pass : ℕ) (passes : List ℕ) (ns : List Ptr)
        → Covered (pass ∷ passes) ns
        → (n : Ptr) → n ∈ keep (passes_over pass) ns
        → (type_info types (mem n).dtype).drop_pass ∈ passes
    Covered-keep pass passes ns cover n m = ground (
      arith,
      cover n,
      contains-keep (passes_over pass) ns n,
      ==_iff pass (type_info types (mem n).dtype).drop_pass,
    )

    -- One pass and the passes behind it.
    Cleared-join :
        (pass : ℕ) (ns : List Ptr) {d e f : Disposal}
        → d.heap.mem ≡ mem
        → Swept pid (total_size types mem (keep (in_pass pass) ns)) (keep (in_pass pass) ns) d e
        → Swept pid
            (total_size types mem (keep (passes_over pass) ns))
            (keep (passes_over pass) ns)
            e
            f
        → Swept pid (total_size types mem ns) ns d f
    Cleared-join pass ns {d} eq s t =
        Swept-list refl
          (λ i. rw eq (
            any_hits-append mem (keep (in_pass pass) ns) (keep (passes_over pass) ns) i
            ∙ any_hits-split pass ns i))
          (Swept-trans (total_size types mem ns) (sym (total_size-split pass ns)) s t)

    -- All passes: nothing is left.
    pub dispose_passes_lem :
        (passes : List ℕ) (ns : List Ptr) (d : Disposal)
        → Charged types mem pid ns
        → Covered passes ns
        → Holds pid (total_size types mem ns) d.heap
        → Cleared ns d (dispose_passes pid passes ns d)
    unfolding dispose_passes total_size
    dispose_passes_lem [] [] d c cover v = (refl, Swept-none pid d)
    dispose_passes_lem [] (n ∷ ns) d c cover v = cc (cover n (ground arith))
    dispose_passes_lem (pass ∷ passes) ns d c cover v =
        let r = dispose_pass pid pass ns d in
        let sum = total_size-split pass ns in
        let v' : Holds pid
            (total_size types mem (keep (in_pass pass) ns)
              + total_size types mem (keep (passes_over pass) ns))
            d.heap =
          rw sum v in
        let (left, s) = dispose_pass_lem pass ns d c (Holds-weaken _ v') in
        let over = keep (passes_over pass) ns in
        let gone : List Ptr → Disposal → Type 0 =
          λ l e. Swept pid (total_size types mem l) l r.1 e in
        elim (Bool-cases (is_empty r.0)) [
          | inl done ↦
              let empty = nil_of_empty r.0 done in
              rw done (
                empty,
                Cleared-join pass ns v.mem_eq s
                    (subst (λ l. gone l r.1) (sym empty ∙ left) (Swept-none pid r.1)),
              )
          | inr more ↦
              let e = (dispose_passes pid passes r.0 r.1).1 in
              let (nil, t) =
                dispose_passes_lem passes r.0 r.1
                  (rw left (Charged-keep pid (passes_over pass) ns c))
                  (λ n m. Covered-keep pass passes ns cover n (subst (λ l. n ∈ l) left m))
                  (rw left (Holds-Less v' s.less)) in
              rw more (nil, Cleared-join pass ns v.mem_eq s (subst (λ l. gone l e) left t))
        ]
