-- ===== src/Links/Split.antt =====
-- The walk of `sweep_unlink` and the kept list of `sweep_dispose`, against the split of a list.
use gc_lite.Base.{
  ℕ, zero, suc, ◌+◌, ◌≤◌, ◌<◌, ◌≡◌, refl, sym, ap, ◌∙◌, subst, Bool, true, false, not, List, [],
  ◌∷◌, ◌++◌, Option, none, some, update, count, count-append, length, keep, arith, ==_iff, ◌==◌,
  if◌then◌else◌, Bool-cases, inl, inr,
}
use mathlib.Core.List.{append-nil, append_assoc}
use gc_lite.Node.{Ptr}
use gc_lite.Links.{Next, Builder, link_tail, push_tail, Halves, place, split_loop}
use gc_lite.Links.Segments.{
  Segment, EndsAt, Segment-agree, EndsAt-update, EndsAt-tail, EndsAt-other, EndsAt-extend,
  EndsAt-agree,
}

-- A list under construction.
abbrev pub Built : Next → Builder → List Ptr → Type 0
Built next b ks = EndsAt next b.head b.tail ks none

-- Memory after a node was detached and linked to the end of the list.
abbrev pub pushed : Next → Builder → Ptr → Next
pushed next b p = link_tail (update next p none) b p

push_to :
    (next : Next) (head tail : Option Ptr) (ks : List Ptr) (p : Ptr)
    → ((q : Ptr) → count q ks ≤ 1)
    → count p ks ≡ 0
    → EndsAt next head tail ks none
    → let b : Builder = record { head = head; tail = tail } in
      Built (pushed next b p) (push_tail b p) (ks ++ (p ∷ []))
unfolding link_tail push_tail EndsAt Segment
push_to next head none ks p once new v =
    ([], ap (λ l. l ++ (p ∷ [])) v.0, refl, ground (arith, ==_iff p p))
push_to next head (some t) ks p once new v =
    let next1 = update next p none in
    let at = EndsAt-tail next head t ks none v in
    let other : (t == p) ≡ false = elim (Bool-cases (t == p)) [
      | inl hit ↦ absurd (omega (arith, at, new, ap (λ q. count q ks) ((==_iff t p).0 hit)))
      | inr miss ↦ miss
    ] in
    let last : update next1 t (some p) p ≡ none = ground (arith, other, ==_iff p p) in
    EndsAt-extend (update next1 t (some p)) head (some t) ks p none
      (EndsAt-update next1 head t ks none (some p) once
        (EndsAt-other next head (some t) ks none p none new v))
      last

push_others :
    (next : Next) (head tail : Option Ptr) (ks : List Ptr) (p q : Ptr)
    → EndsAt next head tail ks none
    → count q ks ≡ 0
    → (p == q) ≡ false
    → pushed next (record { head = head; tail = tail }) p q ≡ next q
unfolding link_tail
push_others next head none ks p q v out other = rw other refl
push_others next head (some t) ks p q v out other =
    let at = EndsAt-tail next head t ks none v in
    elim (Bool-cases (t == q)) [
      | inl hit ↦ absurd (omega (arith, at, out, ap (λ x. count x ks) ((==_iff t q).0 hit)))
      | inr miss ↦ rw (miss, other) refl
    ]

pub Built-push :
    (next : Next) (b : Builder) (ks : List Ptr) (p : Ptr)
    → ((q : Ptr) → count q ks ≤ 1)
    → count p ks ≡ 0
    → Built next b ks
    → Built (pushed next b p) (push_tail b p) (ks ++ (p ∷ []))
Built-push next b ks p once new v = push_to next b.head b.tail ks p once new v

pushed-others :
    (next : Next) (b : Builder) (ks : List Ptr) (p q : Ptr)
    → Built next b ks
    → count q ks ≡ 0
    → (p == q) ≡ false
    → pushed next b p q ≡ next q
pushed-others next b ks p q v out other = push_others next b.head b.tail ks p q v out other

-- What follows a push, for a list that has neither the node nor one of the other list's.
pub Segment-push :
    (next : Next) (b : Builder) (ks : List Ptr) (p : Ptr) (from to : Option Ptr) (xs : List Ptr)
    → Built next b ks
    → ((q : Ptr) → count q ks + count q (p ∷ xs) ≤ 1)
    → Segment next from xs to
    → Segment (pushed next b p) from xs to
unfolding count
Segment-push next b ks p from to xs v once s =
    Segment-agree next (pushed next b p) from xs to
      (λ q i. pushed-others next b ks p q v (omega (arith, once q, i)) (ground (arith, once q, i)))
      s

EndsAt-push :
    (next : Next) (b c : Builder) (ks os : List Ptr) (p : Ptr)
    → Built next b ks
    → ((q : Ptr) → count q ks + count q (p ∷ os) ≤ 1)
    → Built next c os
    → Built (pushed next b p) c os
unfolding count
EndsAt-push next b c ks os p v once s =
    EndsAt-agree next (pushed next b p) c.head c.tail os none
      (λ q i. pushed-others next b ks p q v (omega (arith, once q, i)) (ground (arith, once q, i)))
      s

-- The walk so far: the two lists and what is left of the old chain, apart from each other.
pub record IsWalk (current : Option Ptr) (ws ss xs : List Ptr) (s : Halves) : Type 0 where
  pub white : Built s.next s.white ws
  pub survivors : Built s.next s.survivors ss
  pub rest : Segment s.next current xs none
  pub once : (q : Ptr) → count q ws + count q ss + count q xs ≤ 1

white_step :
    (current : Option Ptr) (ws ss xs : List Ptr) (p : Ptr) (s : Halves)
    → IsWalk current ws ss (p ∷ xs) s
    → IsWalk
        (s.next p)
        (ws ++ (p ∷ []))
        ss
        xs
        (record s { next = pushed s.next s.white p; white = push_tail s.white p })
unfolding count Segment
white_step current ws ss xs p s v = record {
  white =
      Built-push s.next s.white ws p (λ q. ground (arith, v.once q))
        (ground (arith, v.once p, ==_iff p p)) v.white;
  survivors =
      EndsAt-push s.next s.white s.survivors ws ss p v.white (λ q. ground (arith, v.once q))
        v.survivors;
  rest =
      Segment-push s.next s.white ws p (s.next p) none xs v.white (λ q. ground (arith, v.once q))
        v.rest.1;
  once = λ q. ground (arith, v.once q, count-append q ws (p ∷ []));
}

survivor_step :
    (current : Option Ptr) (ws ss xs : List Ptr) (p : Ptr) (s : Halves)
    → IsWalk current ws ss (p ∷ xs) s
    → IsWalk
        (s.next p)
        ws
        (ss ++ (p ∷ []))
        xs
        (record s { next = pushed s.next s.survivors p; survivors = push_tail s.survivors p })
unfolding count Segment
survivor_step current ws ss xs p s v = record {
  white =
      EndsAt-push s.next s.survivors s.white ss ws p v.survivors (λ q. ground (arith, v.once q))
        v.white;
  survivors =
      Built-push s.next s.survivors ss p (λ q. ground (arith, v.once q))
        (ground (arith, v.once p, ==_iff p p)) v.survivors;
  rest =
      Segment-push s.next s.survivors ss p (s.next p) none xs v.survivors
        (λ q. ground (arith, v.once q)) v.rest.1;
  once = λ q. ground (arith, v.once q, count-append q ss (p ∷ []));
}

place_white :
    (f : Ptr → Bool) (p : Ptr) (s : Halves)
    → f p ≡ true
    → place f p s ≡ record s { next = pushed s.next s.white p; white = push_tail s.white p }
unfolding place
place_white f p s e =
    ap
      (λ b.
        if b
        then record s { next = pushed s.next s.white p; white = push_tail s.white p }
        else record s { next = pushed s.next s.survivors p; survivors = push_tail s.survivors p })
      e

place_survivor :
    (f : Ptr → Bool) (p : Ptr) (s : Halves)
    → f p ≡ false
    → place f p s
      ≡ record s { next = pushed s.next s.survivors p; survivors = push_tail s.survivors p }
unfolding place
place_survivor f p s e =
    ap
      (λ b.
        if b
        then record s { next = pushed s.next s.white p; white = push_tail s.white p }
        else record s { next = pushed s.next s.survivors p; survivors = push_tail s.survivors p })
      e

pub split_loop-IsWalk :
    (fuel : ℕ) (f : Ptr → Bool) (current : Option Ptr) (ws ss xs : List Ptr) (s : Halves)
    → length xs < fuel
    → IsWalk current ws ss xs s
    → (out : Halves) × (split_loop fuel f current s ≡ some out)
      × IsWalk none (ws ++ keep f xs) (ss ++ keep (λ p. not (f p)) xs) [] out
unfolding split_loop Segment
split_loop-IsWalk zero f current ws ss xs s lt v = absurd (omega arith)
split_loop-IsWalk (suc fuel) f current ws ss [] s lt v = (
  s,
  ap (λ o. split_loop (suc fuel) f o s) v.rest,
  rw (append-nil ws, append-nil ss) (subst (λ o. IsWalk o ws ss [] s) v.rest v),
)
split_loop-IsWalk (suc fuel) f current ws ss (p ∷ xs) s lt v =
    subst
      (λ o.
        (out : Halves) × (split_loop (suc fuel) f o s ≡ some out)
        × IsWalk none (ws ++ keep f (p ∷ xs)) (ss ++ keep (λ p. not (f p)) (p ∷ xs)) [] out)
      (sym v.rest.0)
      (elim (Bool-cases (f p)) [
        | inl dead ↦
            let s' : Halves = record s {
              next = pushed s.next s.white p;
              white = push_tail s.white p;
            } in
            let (out, ran, w) =
              split_loop-IsWalk fuel f (s.next p) (ws ++ (p ∷ [])) ss xs s' (omega arith)
                (white_step current ws ss xs p s v) in
            (
              out,
              ap (split_loop fuel f (s.next p)) (place_white f p s dead) ∙ ran,
              subst (λ l. IsWalk none l (ss ++ keep (λ p. not (f p)) (p ∷ xs)) [] out)
                  (append_assoc ws (p ∷ []) (keep f xs) ∙ rw dead refl) (rw dead w),
            )
        | inr live ↦
            let s' : Halves = record s {
              next = pushed s.next s.survivors p;
              survivors = push_tail s.survivors p;
            } in
            let (out, ran, w) =
              split_loop-IsWalk fuel f (s.next p) ws (ss ++ (p ∷ [])) xs s' (omega arith)
                (survivor_step current ws ss xs p s v) in
            (
              out,
              ap (split_loop fuel f (s.next p)) (place_survivor f p s live) ∙ ran,
              subst (λ l. IsWalk none (ws ++ keep f (p ∷ xs)) l [] out)
                  (append_assoc ss (p ∷ []) (keep (λ p. not (f p)) xs) ∙ rw live refl) (rw live w),
            )
      ])
