-- ===== src/Links/Filter.antt =====
-- `filter_remove_with` against the filter of a list.
use gc_lite.Base.{
  ℕ, zero, suc, ◌+◌, ◌≤◌, ◌<◌, ◌≡◌, refl, sym, ap, ◌∙◌, subst, Bool, true, false, not, List, [],
  ◌∷◌, ◌++◌, Option, none, some, count, count-append, length, keep, arith, ==_iff, ◌==◌, Bool-cases,
  inl, inr,
}
use mathlib.Core.List.{append-nil, append_assoc}
use gc_lite.Node.{Ptr}
use gc_lite.Links.{GcNodeLink, unlink, filter_loop, filter_remove_with}
use gc_lite.Links.Segments.{
  Segment, IsChain, EndsAt, Segment-update, Segment-EndsAt, EndsAt-update, EndsAt-tail,
  EndsAt-extend, count-keep-le,
}

-- What the loop returns from its state on: `ks` are the nodes kept so far, `xs` those to come.
pub record Filtered (predicate : Ptr → Bool) (link : GcNodeLink) (ks xs removed : List Ptr)
    (out : GcNodeLink × List Ptr) : Type 0 where
  pub kept : Segment out.0.next out.0.link_head (ks ++ keep (λ p. not (predicate p)) xs) none
  pub gone : out.1 ≡ removed ++ keep predicate xs
  pub others : (q : Ptr) → count q ks + count q xs ≡ 0 → out.0.next q ≡ link.next q

unlink-EndsAt :
    (link : GcNodeLink) (prev : Option Ptr) (ks : List Ptr) (to after : Option Ptr)
    → ((q : Ptr) → count q ks ≤ 1)
    → EndsAt link.next link.link_head prev ks to
    → EndsAt (unlink link prev after).next (unlink link prev after).link_head prev ks after
unfolding unlink EndsAt
unlink-EndsAt link none ks to after once s = (s.0, refl)
unlink-EndsAt link (some t) ks to after once s =
    EndsAt-update link.next link.link_head t ks to after once s

unlink-Segment :
    (link : GcNodeLink) (prev : Option Ptr) (ks xs : List Ptr) (to after from end : Option Ptr)
    → ((q : Ptr) → count q ks + count q xs ≤ 1)
    → EndsAt link.next link.link_head prev ks to
    → Segment link.next from xs end
    → Segment (unlink link prev after).next from xs end
unfolding unlink
unlink-Segment link none ks xs to after from end once e s = s
unlink-Segment link (some t) ks xs to after from end once e s =
    Segment-update link.next from xs end t after
      (omega (arith, once t, EndsAt-tail link.next link.link_head t ks to e)) s

unlink-others :
    (link : GcNodeLink) (prev : Option Ptr) (ks : List Ptr) (to after : Option Ptr) (q : Ptr)
    → EndsAt link.next link.link_head prev ks to
    → count q ks ≡ 0
    → (unlink link prev after).next q ≡ link.next q
unfolding unlink
unlink-others link none ks to after q e out = refl
unlink-others link (some t) ks to after q e out =
    let at = EndsAt-tail link.next link.link_head t ks to e in
    elim (Bool-cases (t == q)) [
      | inl hit ↦ absurd (omega (arith, at, out, ap (λ p. count p ks) ((==_iff t q).0 hit)))
      | inr miss ↦ rw miss refl
    ]

-- The rest of the walk, from a node that goes and from one that stays.
drop_node :
    (predicate : Ptr → Bool) (link : GcNodeLink) (prev current : Option Ptr) (ks : List Ptr)
    (p : Ptr) (xs removed : List Ptr)
    → predicate p ≡ true
    → EndsAt link.next link.link_head prev ks current
    → (out : GcNodeLink × List Ptr)
    → Filtered predicate (unlink link prev (link.next p)) ks xs (removed ++ (p ∷ [])) out
    → Filtered predicate link ks (p ∷ xs) removed out
unfolding count
drop_node predicate link prev current ks p xs removed goes e out v = record {
  kept = rw goes v.kept;
  gone = rw goes (v.gone ∙ append_assoc removed (p ∷ []) (keep predicate xs));
  others = λ q no_.
      v.others q (omega (arith, no_))
      ∙ unlink-others link prev ks current (link.next p) q e (omega (arith, no_));
}

keep_node :
    (predicate : Ptr → Bool) (link : GcNodeLink) (ks : List Ptr) (p : Ptr) (xs removed : List Ptr)
    → predicate p ≡ false
    → (out : GcNodeLink × List Ptr) → Filtered predicate link (ks ++ (p ∷ [])) xs removed out
    → Filtered predicate link ks (p ∷ xs) removed out
unfolding count
keep_node predicate link ks p xs removed stays out v = record {
  kept = rw stays (
      subst (λ l. Segment out.0.next out.0.link_head l none)
        (append_assoc ks (p ∷ []) (keep (λ x. not (predicate x)) xs)) v.kept);
  gone = rw stays v.gone;
  others = λ q no_. v.others q (omega (arith, no_, count-append q ks (p ∷ [])));
}

filter_loop-Filtered :
    (fuel : ℕ) (predicate : Ptr → Bool) (link : GcNodeLink) (prev current : Option Ptr)
    (ks xs removed : List Ptr)
    → length xs < fuel
    → ((q : Ptr) → count q ks + count q xs ≤ 1)
    → EndsAt link.next link.link_head prev ks current
    → Segment link.next current xs none
    → (out : GcNodeLink × List Ptr) × (filter_loop fuel predicate link prev current removed
        ≡ some out)
      × Filtered predicate link ks xs removed out
unfolding filter_loop Segment count
filter_loop-Filtered zero predicate link prev current ks xs removed lt once e s =
    absurd (omega arith)
filter_loop-Filtered (suc fuel) predicate link prev current ks [] removed lt once e s = (
  (link, removed),
  ap (λ o. filter_loop (suc fuel) predicate link prev o removed) s,
  record {
    kept =
        subst (λ l. Segment link.next link.link_head l none) (sym (append-nil ks))
          (subst (λ o. Segment link.next link.link_head ks o) s
            (Segment-EndsAt link.next link.link_head prev ks current e));
    gone = sym (append-nil removed);
    others = λ q out. refl;
  },
)
filter_loop-Filtered (suc fuel) predicate link prev current ks (p ∷ xs) removed lt once e s =
    subst
      (λ o.
        (out : GcNodeLink × List Ptr) × (filter_loop (suc fuel) predicate link prev o removed
          ≡ some out)
        × Filtered predicate link ks (p ∷ xs) removed out)
      (sym s.0)
      (elim (Bool-cases (predicate p)) [
        | inl goes ↦
            let (out, ran, v) =
              filter_loop-Filtered fuel predicate (unlink link prev (link.next p)) prev
                (link.next p) ks xs (removed ++ (p ∷ [])) (omega arith)
                (λ q. ground (arith, once q))
                (unlink-EndsAt link prev ks current (link.next p) (λ q. ground (arith, once q)) e)
                (unlink-Segment link prev ks xs current (link.next p) (link.next p) none
                  (λ q. ground (arith, once q)) e s.1) in
            (out, rw goes ran, drop_node predicate link prev current ks p xs removed goes e out v)
        | inr stays ↦
            let (out, ran, v) =
              filter_loop-Filtered fuel predicate link (some p) (link.next p) (ks ++ (p ∷ [])) xs
                removed (omega arith) (λ q. ground (arith, once q, count-append q ks (p ∷ [])))
                (EndsAt-extend link.next link.link_head prev ks p (link.next p)
                  (subst (λ o. EndsAt link.next link.link_head prev ks o) s.0 e) refl)
                s.1 in
            (out, rw stays ran, keep_node predicate link ks p xs removed stays out v)
      ])

-- Let a chain visit the nodes of a list, each once, and remove from it the nodes that a predicate
-- selects. With more fuel than there are nodes the loop ends. The chain then visits the nodes that are
-- not selected, in order and each once; the callback has been called with the others, in order; and
-- the `next` field of every node outside the chain is as it was.
pub filter_remove_with-keep :
    (fuel : ℕ) (predicate : Ptr → Bool) (link : GcNodeLink) (ps : List Ptr)
    → length ps < fuel
    → IsChain link.next link.link_head ps
    → (out : GcNodeLink × List Ptr) × (filter_remove_with fuel predicate link ≡ some out)
      × IsChain out.0.next out.0.link_head (keep (λ p. not (predicate p)) ps)
      × (out.1 ≡ keep predicate ps)
      × ((q : Ptr) → count q ps ≡ 0 → out.0.next q ≡ link.next q)
unfolding filter_remove_with EndsAt count
filter_remove_with-keep fuel predicate link ps lt chain =
    let (out, ran, v) =
      filter_loop-Filtered fuel predicate link none link.link_head [] ps [] lt
        (λ q. omega (arith, chain.once q)) (refl, refl) chain.linked in
    (
      out,
      ran,
      record {
        linked = v.kept;
        once = λ q. omega (arith, chain.once q, count-keep-le (λ p. not (predicate p)) ps q);
      },
      v.gone,
      λ q no_. v.others q (omega (arith, no_)),
    )
