-- ===== src/Sweep/Agrees.antt =====
-- The deprecated `sweep` comes to the same as the sweep in three steps.
use gc_lite.Base.{
  ℕ, ◌+◌, ◌≡◌, refl, sym, ap, ◌∙◌, subst, Bool, true, false, not, ◌&&◌, List, [], ◌∷◌, ◌==◌,
  if◌then◌else◌, keep, count, count-append, arith, Bool-cases, inl, inr,
}
use gc_lite.Node.{Ptr}
use gc_lite.Heap.{GcHeap}
use gc_lite.Mark.{is_empty}
use gc_lite.Mem.{dispose, dispose_no_drop, drop_payload}
use gc_lite.Sweep.{Disposal, is_dead, drop_pass, dispose_node, dispose_pass, dispose_passes}
use gc_lite.Sweep.Passes.{nil_of_empty}
use gc_lite.Sweep.Result.{needs_drop}
use gc_lite.Sweep.Single.{Sweeping, sweep_node, sweep_pass, sweep_passes}
use gc_lite.Sweep.Renode.{mem-dispose_node}

module _ (h : GcHeap) (pid : ℕ) where
  abbrev pub is_live : Ptr → Bool
  is_live n = not (is_dead h n)

  -- The headers and the types are still those of `h`.
  abbrev pub Unchanged : Disposal → Type 0
  Unchanged d = (d.heap.mem ≡ h.mem) × (d.heap.node_dtypes ≡ h.node_dtypes)

  pub Unchanged-dispose_node :
      (n : Ptr) (d : Disposal) → Unchanged d → Unchanged (dispose_node pid n d)
  Unchanged-dispose_node n d v =
      ((mem-dispose_node pid n d).0 ∙ v.0, (mem-dispose_node pid n d).1 ∙ v.1)

  -- A walk over the whole chain `xs` that left `link`, against one over its dead nodes that left
  -- `ns`: the same was disposed of, and the same payloads were dropped, as many times.
  pub record Agrees (xs link ns : List Ptr) (s t : Sweeping) (e : Disposal) : Type 0 where
    pub disposal : t.disposal ≡ e
    pub rest : keep (is_dead h) link ≡ ns
    pub stays : keep is_live link ≡ keep is_live xs
    pub same : Unchanged e
    pub payloads :
        (q : Ptr)
        → count q t.dropped + count q (keep (needs_drop h) ns)
          ≡ count q s.dropped + count q (keep (needs_drop h) (keep (is_dead h) xs))

  count-keep-cons :
      (q n : Ptr) (xs : List Ptr)
      → count q (keep (needs_drop h) (n ∷ xs))
        ≡ count q (keep (needs_drop h) (n ∷ [])) + count q (keep (needs_drop h) xs)
  unfolding count
  count-keep-cons q n xs = ground arith

  disposal-sweep_node :
      (n : Ptr) (s : Sweeping) (d : Disposal)
      → s.disposal ≡ d
      → (sweep_node pid n s).disposal ≡ dispose_node pid n d
  unfolding sweep_node dispose_node dispose dispose_no_drop
  disposal-sweep_node n s d e = ap (λ c. dispose_node pid n c) e

  dropped-sweep_node :
      (n : Ptr) (s : Sweeping) (q : Ptr)
      → Unchanged s.disposal
      → count q (sweep_node pid n s).dropped
        ≡ count q s.dropped + count q (keep (needs_drop h) (n ∷ []))
  unfolding sweep_node dispose drop_payload
  dropped-sweep_node n s q v =
      let same : needs_drop s.disposal.heap n ≡ needs_drop h n = rw (v.0, v.1) refl in
      count-append q s.dropped (drop_payload s.disposal.heap n) ∙ rw same refl

  -- A node that lives, a dead one of this pass, and one of another pass.
  live_node :
      (n : Ptr) (xs link ns : List Ptr) (s t : Sweeping) (e : Disposal)
      → is_dead h n ≡ false
      → Agrees xs link ns s t e
      → Agrees (n ∷ xs) (n ∷ link) ns s t e
  live_node n xs link ns s t e alive u = record {
    disposal = u.disposal;
    rest = rw alive u.rest;
    stays = rw alive (ap (λ l. n ∷ l) u.stays);
    same = u.same;
    payloads = λ q. rw alive (u.payloads q);
  }

  mine_node :
      (n : Ptr) (xs link ns : List Ptr) (s t : Sweeping) (e : Disposal)
      → is_dead h n ≡ true
      → Unchanged s.disposal
      → Agrees xs link ns (sweep_node pid n s) t e
      → Agrees (n ∷ xs) link ns s t e
  mine_node n xs link ns s t e gone v u = record {
    disposal = u.disposal;
    rest = u.rest;
    stays = rw gone u.stays;
    same = u.same;
    payloads = λ q. rw gone (
        omega (
          arith,
          u.payloads q,
          dropped-sweep_node n s q v,
          count-keep-cons q n (keep (is_dead h) xs),
        ));
  }

  other_node :
      (n : Ptr) (xs link ns : List Ptr) (s t : Sweeping) (e : Disposal)
      → is_dead h n ≡ true
      → Agrees xs link ns s t e
      → Agrees (n ∷ xs) (n ∷ link) (n ∷ ns) s t e
  other_node n xs link ns s t e gone u = record {
    disposal = u.disposal;
    rest = rw gone (ap (λ l. n ∷ l) u.rest);
    stays = rw gone u.stays;
    same = u.same;
    payloads = λ q. rw gone (
        omega
          (arith, u.payloads q, count-keep-cons q n ns, count-keep-cons q n (keep (is_dead h) xs)));
  }

  sweep_step :
      (pass : ℕ) (n : Ptr) (xs : List Ptr) (s : Sweeping) (b : Bool)
      → (drop_pass s.disposal.heap n == pass && is_dead s.disposal.heap n) ≡ b
      → sweep_pass pid pass (n ∷ xs) s ≡ (
          let r = sweep_pass pid pass xs (if b then sweep_node pid n s else s) in
          (if b then r.0 else n ∷ r.0, r.1))
  unfolding sweep_pass
  sweep_step pass n xs s b e =
      ap
        (λ b.
          let r = sweep_pass pid pass xs (if b then sweep_node pid n s else s) in
          (if b then r.0 else n ∷ r.0, r.1))
        e

  pub dispose_step :
      (pass : ℕ) (n : Ptr) (ns : List Ptr) (d : Disposal) (b : Bool)
      → (drop_pass d.heap n == pass) ≡ b
      → dispose_pass pid pass (n ∷ ns) d ≡ (
          let r = dispose_pass pid pass ns (if b then dispose_node pid n d else d) in
          (if b then r.0 else n ∷ r.0, r.1))
  unfolding dispose_pass
  dispose_step pass n ns d b e =
      ap
        (λ b.
          let r = dispose_pass pid pass ns (if b then dispose_node pid n d else d) in
          (if b then r.0 else n ∷ r.0, r.1))
        e

  keep_dead :
      (n : Ptr) (xs : List Ptr)
      → is_dead h n ≡ true
      → keep (is_dead h) (n ∷ xs) ≡ n ∷ keep (is_dead h) xs
  keep_dead n xs gone = rw gone refl

  and_false : (b : Bool) → (b && false) ≡ false
  and_false b = ground arith

  Agrees-at :
      (xs : List Ptr) (s : Sweeping) (q : List Ptr × Sweeping) (q' : List Ptr × Disposal)
      (r : List Ptr × Sweeping) (r' : List Ptr × Disposal)
      → q ≡ r
      → q' ≡ r'
      → Agrees xs r.0 r'.0 s r.1 r'.1
      → Agrees xs q.0 q'.0 s q.1 q'.1
  Agrees-at xs s q q' r r' e e' v =
      subst (λ x. Agrees xs x.0 q'.0 s x.1 q'.1) (sym e)
        (subst (λ x. Agrees xs r.0 x.0 s r.1 x.1) (sym e') v)

  sweep_pass-Agrees :
      (pass : ℕ) (xs : List Ptr) (s : Sweeping) (d : Disposal)
      → s.disposal ≡ d
      → Unchanged d
      → let r = sweep_pass pid pass xs s in
        let r' = dispose_pass pid pass (keep (is_dead h) xs) d in Agrees xs r.0 r'.0 s r.1 r'.1
  unfolding sweep_pass dispose_pass count
  sweep_pass-Agrees pass [] s d e v = record {
    disposal = e;
    rest = refl;
    stays = refl;
    same = v;
    payloads = λ q. refl;
  }
  sweep_pass-Agrees pass (n ∷ xs) s d e v =
      let here : is_dead s.disposal.heap n ≡ is_dead h n = rw (e, v.0) refl in
      let at : (drop_pass s.disposal.heap n == pass) ≡ (drop_pass h n == pass) =
        rw (e, v.0, v.1) refl in
      let at' : (drop_pass d.heap n == pass) ≡ (drop_pass h n == pass) = rw (v.0, v.1) refl in
      let dead_rest = keep (is_dead h) xs in
      elim (Bool-cases (is_dead h n)) [
        | inr alive ↦
            Agrees-at (n ∷ xs) s (sweep_pass pid pass (n ∷ xs) s)
              (dispose_pass pid pass (keep (is_dead h) (n ∷ xs)) d)
              (n ∷ (sweep_pass pid pass xs s).0, (sweep_pass pid pass xs s).1)
              (dispose_pass pid pass dead_rest d)
              (sweep_step pass n xs s false
                (rw (at, here, alive) (and_false (drop_pass h n == pass))))
              (rw alive refl) (live_node n xs _ _ s _ _ alive (sweep_pass-Agrees pass xs s d e v))
        | inl gone ↦ elim (Bool-cases (drop_pass h n == pass)) [
          | inl mine ↦
              let s' = sweep_node pid n s in
              let d' = dispose_node pid n d in
              let u =
                sweep_pass-Agrees pass xs s' d' (disposal-sweep_node n s d e)
                  (Unchanged-dispose_node n d v) in
              Agrees-at (n ∷ xs) s (sweep_pass pid pass (n ∷ xs) s)
                (dispose_pass pid pass (keep (is_dead h) (n ∷ xs)) d) (sweep_pass pid pass xs s')
                (dispose_pass pid pass dead_rest d')
                (sweep_step pass n xs s true (rw (at, here, gone, mine) refl))
                (ap (λ l. dispose_pass pid pass l d) (keep_dead n xs gone)
                  ∙ dispose_step pass n dead_rest d true (at' ∙ mine))
                (mine_node n xs _ _ s _ _ gone (subst Unchanged (sym e) v) u)
          | inr other ↦
              let r = sweep_pass pid pass xs s in
              let r' = dispose_pass pid pass dead_rest d in
              Agrees-at (n ∷ xs) s (sweep_pass pid pass (n ∷ xs) s)
                (dispose_pass pid pass (keep (is_dead h) (n ∷ xs)) d) (n ∷ r.0, r.1)
                (n ∷ r'.0, r'.1) (sweep_step pass n xs s false (rw (at, here, gone, other) refl))
                (ap (λ l. dispose_pass pid pass l d) (keep_dead n xs gone)
                  ∙ dispose_step pass n dead_rest d false (at' ∙ other))
                (other_node n xs _ _ s _ _ gone (sweep_pass-Agrees pass xs s d e v))
        ]
      ]

  pub none_dead : (n : Ptr) (xs : List Ptr) → keep (is_dead h) (n ∷ xs) ≡ [] → is_dead h n ≡ false
  none_dead n xs e = ground (arith, e)

  -- A walk over a chain without dead nodes changes nothing.
  quiet_pass :
      (pass : ℕ) (link : List Ptr) (s : Sweeping)
      → keep (is_dead h) link ≡ []
      → Unchanged s.disposal
      → sweep_pass pid pass link s ≡ (link, s)
  unfolding sweep_pass
  quiet_pass pass [] s e v = refl
  quiet_pass pass (n ∷ link) s e v =
      let alive = none_dead n link e in
      let here : is_dead s.disposal.heap n ≡ false = rw v.0 alive in
      sweep_step pass n link s false (rw here (and_false (drop_pass s.disposal.heap n == pass)))
      ∙ ap (λ (r : List Ptr × Sweeping). (n ∷ r.0, r.1)) (quiet_pass pass link s (rw alive at e) v)

  sweep_passes_step :
      (pass : ℕ) (passes : List ℕ) (link : List Ptr) (s : Sweeping) (b : Bool)
      → is_empty (sweep_pass pid pass link s).0 ≡ b
      → sweep_passes pid (pass ∷ passes) link s
        ≡ (let r = sweep_pass pid pass link s in if b then r else sweep_passes pid passes r.0 r.1)
  unfolding sweep_passes
  sweep_passes_step pass passes link s b e =
      ap
        (λ b.
          let r = sweep_pass pid pass link s in if b then r else sweep_passes pid passes r.0 r.1)
        e

  pub dispose_passes_step :
      (pass : ℕ) (passes : List ℕ) (ns : List Ptr) (d : Disposal) (b : Bool)
      → is_empty (dispose_pass pid pass ns d).0 ≡ b
      → dispose_passes pid (pass ∷ passes) ns d
        ≡ (let r = dispose_pass pid pass ns d in if b then r else dispose_passes pid passes r.0 r.1)
  unfolding dispose_passes
  dispose_passes_step pass passes ns d b e =
      ap
        (λ b.
          let r = dispose_pass pid pass ns d in if b then r else dispose_passes pid passes r.0 r.1)
        e

  either : {A : Type 0} (b : Bool) (x y : A) → y ≡ x → (if b then x else y) ≡ x
  either true x y e = refl
  either false x y e = e

  quiet_passes :
      (passes : List ℕ) (link : List Ptr) (s : Sweeping)
      → keep (is_dead h) link ≡ []
      → Unchanged s.disposal
      → sweep_passes pid passes link s ≡ (link, s)
  unfolding sweep_passes
  quiet_passes [] link s e v = refl
  quiet_passes (pass ∷ passes) link s e v =
      let r = sweep_pass pid pass link s in
      let still = quiet_pass pass link s e v in
      sweep_passes_step pass passes link s (is_empty r.0) refl
      ∙ (either (is_empty r.0) r (sweep_passes pid passes r.0 r.1) (
            ap (λ (q : List Ptr × Sweeping). sweep_passes pid passes q.0 q.1) still
            ∙ (quiet_passes passes link s e v ∙ sym still))
          ∙ still)

  Agrees-trans :
      (xs link ns link' ns' : List Ptr) (s t w : Sweeping) (e e' : Disposal)
      → Agrees xs link ns s t e
      → Agrees link link' ns' t w e'
      → Agrees xs link' ns' s w e'
  Agrees-trans xs link ns link' ns' s t w e e' u v = record {
    disposal = v.disposal;
    rest = v.rest;
    stays = v.stays ∙ u.stays;
    same = v.same;
    payloads = λ q.
        omega (arith, u.payloads q, v.payloads q, ap (λ l. count q (keep (needs_drop h) l)) u.rest);
  }

  filled :
      (link ns : List Ptr)
      → keep (is_dead h) link ≡ ns
      → is_empty ns ≡ false
      → is_empty link ≡ false
  filled [] ns e more = absurd (ground (arith, ap is_empty e, more))
  filled (n ∷ link) ns e more = refl

  pub sweep_passes-Agrees :
      (passes : List ℕ) (xs : List Ptr) (s : Sweeping) (d : Disposal)
      → s.disposal ≡ d
      → Unchanged d
      → let r = sweep_passes pid passes xs s in
        let r' = dispose_passes pid passes (keep (is_dead h) xs) d in Agrees xs r.0 r'.0 s r.1 r'.1
  unfolding sweep_passes dispose_passes
  sweep_passes-Agrees [] xs s d e v = record {
    disposal = e;
    rest = refl;
    stays = refl;
    same = v;
    payloads = λ q. refl;
  }
  sweep_passes-Agrees (pass ∷ passes) xs s d e v =
      let r = sweep_pass pid pass xs s in
      let r' = dispose_pass pid pass (keep (is_dead h) xs) d in
      let u = sweep_pass-Agrees pass xs s d e v in
      elim (Bool-cases (is_empty r'.0)) [
        | inl done ↦
            let quiet : keep (is_dead h) r.0 ≡ [] = u.rest ∙ nil_of_empty r'.0 done in
            let all : sweep_passes pid (pass ∷ passes) xs s ≡ r =
              sweep_passes_step pass passes xs s (is_empty r.0) refl
              ∙ either (is_empty r.0) r (sweep_passes pid passes r.0 r.1)
                  (quiet_passes passes r.0 r.1 quiet (subst Unchanged (sym u.disposal) u.same)) in
            Agrees-at xs s (sweep_passes pid (pass ∷ passes) xs s)
              (dispose_passes pid (pass ∷ passes) (keep (is_dead h) xs) d) r r' all
              (dispose_passes_step pass passes (keep (is_dead h) xs) d true done) u
        | inr more ↦
            let w = sweep_passes-Agrees passes r.0 r.1 r'.1 u.disposal u.same in
            Agrees-at xs s (sweep_passes pid (pass ∷ passes) xs s)
              (dispose_passes pid (pass ∷ passes) (keep (is_dead h) xs) d)
              (sweep_passes pid passes r.0 r.1)
              (dispose_passes pid passes (keep (is_dead h) r.0) r'.1)
              (sweep_passes_step pass passes xs s false (filled r.0 r'.0 u.rest more))
              (dispose_passes_step pass passes (keep (is_dead h) xs) d false more
                ∙ ap (λ l. dispose_passes pid passes l r'.1) (sym u.rest))
              (Agrees-trans xs r.0 r'.0 _ _ s r.1 _ r'.1 _ u w)
      ]
