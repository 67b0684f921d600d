-- ===== src/Links/Segments.antt =====
-- Stretches of a chain, and what a write to one field does to them.
use gc_lite.Base.{
  ◌≡◌, ◌≤◌, refl, sym, ap, ◌∙◌, subst, Bool, false, List, [], ◌∷◌, ◌++◌, Option, none, some, ◌==◌,
  update, arith, ==_iff, keep, count, count-append,
}
use gc_lite.Node.{Ptr}
use gc_lite.Links.{Next}

-- From `from` the fields `next` lead through the nodes of the list, in order, to `to`.
unfoldable pub Segment : Next → Option Ptr → List Ptr → Option Ptr → Type 0
Segment next from [] to = from ≡ to
Segment next from (p ∷ ps) to = (from ≡ some p) × Segment next (next p) ps to

-- A whole chain, which visits no node twice.
pub record IsChain (next : Next) (head : Option Ptr) (ps : List Ptr) : Type 0 where
  pub linked : Segment next head ps none
  pub once : (q : Ptr) → count q ps ≤ 1

pub count-keep-le : (f : Ptr → Bool) (ps : List Ptr) (q : Ptr) → count q (keep f ps) ≤ count q ps
unfolding count
count-keep-le f [] q = omega arith
count-keep-le f (p ∷ ps) q = ground (arith, count-keep-le f ps q)

pub Segment-update :
    (next : Next) (from : Option Ptr) (ps : List Ptr) (to : Option Ptr) (q : Ptr) (v : Option Ptr)
    → count q ps ≡ 0
    → Segment next from ps to
    → Segment (update next q v) from ps to
unfolding Segment count
Segment-update next from [] to q v out s = s
Segment-update next from (p ∷ ps) to q v out s =
    let other : (q == p) ≡ false = ground (arith, ==_iff q p, ==_iff p q, out) in
    let same : update next q v p ≡ next p = rw other refl in
    (
      s.0,
      subst (λ o. Segment (update next q v) o ps to) (sym same)
          (Segment-update next (next p) ps to q v (ground arith) s.1),
    )

pub Segment-append :
    (next : Next) (from : Option Ptr) (ps qs : List Ptr) (mid to : Option Ptr)
    → Segment next from ps mid
    → Segment next mid qs to
    → Segment next from (ps ++ qs) to
unfolding Segment
Segment-append next from [] qs mid to s t = subst (λ o. Segment next o qs to) (sym s) t
Segment-append next from (p ∷ ps) qs mid to s t =
    (s.0, Segment-append next (next p) ps qs mid to s.1 t)

-- A list that is being built: it ends at the tail, and so far leads to `to`.
unfoldable pub EndsAt : Next → Option Ptr → Option Ptr → List Ptr → Option Ptr → Type 0
EndsAt next head none ps to = (ps ≡ []) × (head ≡ to)
EndsAt next head (some t) ps to =
    (front : List Ptr) × (ps ≡ front ++ (t ∷ [])) × Segment next head front (some t) × (next t ≡ to)

pub Segment-EndsAt :
    (next : Next) (head tail : Option Ptr) (ps : List Ptr) (to : Option Ptr)
    → EndsAt next head tail ps to
    → Segment next head ps to
unfolding EndsAt Segment
Segment-EndsAt next head none ps to (e, h) = subst (λ l. Segment next head l to) (sym e) h
Segment-EndsAt next head (some t) ps to (front, e, s, last) =
    subst (λ l. Segment next head l to) (sym e)
      (Segment-append next head front (t ∷ []) (some t) to s (refl, last))

-- The last field of such a list is written: in the header of the tail.
pub EndsAt-update :
    (next : Next) (head : Option Ptr) (t : Ptr) (ps : List Ptr) (to v : Option Ptr)
    → ((q : Ptr) → count q ps ≤ 1)
    → EndsAt next head (some t) ps to
    → EndsAt (update next t v) head (some t) ps v
unfolding EndsAt count
EndsAt-update next head t ps to v once (front, e, s, last) =
    let out : count t front ≡ 0 =
      ground (arith, once t, count-append t front (t ∷ []), ap (λ l. count t l) e, ==_iff t t) in
    (front, e, Segment-update next head front (some t) t v out s, ground (arith, ==_iff t t))

-- The tail stands in the list.
pub EndsAt-tail :
    (next : Next) (head : Option Ptr) (t : Ptr) (ps : List Ptr) (to : Option Ptr)
    → EndsAt next head (some t) ps to
    → 1 ≤ count t ps
unfolding EndsAt count
EndsAt-tail next head t ps to (front, e, s, last) =
    ground (arith, count-append t front (t ∷ []), ap (λ l. count t l) e, ==_iff t t)

-- A write elsewhere.
pub EndsAt-other :
    (next : Next) (head tail : Option Ptr) (ps : List Ptr) (to : Option Ptr) (q : Ptr)
    (v : Option Ptr)
    → count q ps ≡ 0
    → EndsAt next head tail ps to
    → EndsAt (update next q v) head tail ps to
unfolding EndsAt count
EndsAt-other next head none ps to q v out s = s
EndsAt-other next head (some t) ps to q v out (front, e, s, last) =
    let split = count-append q front (t ∷ []) in
    let at : count q ps ≡ count q (front ++ (t ∷ [])) = ap (λ l. count q l) e in
    let other : (q == t) ≡ false = ground (arith, split, at, out, ==_iff q t, ==_iff t q) in
    (
      front,
      e,
      Segment-update next head front (some t) q v (ground (arith, split, at, out)) s,
      ground (arith, other, last),
    )

-- The node that the list leads to becomes its tail.
pub EndsAt-extend :
    (next : Next) (head tail : Option Ptr) (ps : List Ptr) (p : Ptr) (to : Option Ptr)
    → EndsAt next head tail ps (some p)
    → next p ≡ to
    → EndsAt next head (some p) (ps ++ (p ∷ [])) to
unfolding EndsAt
EndsAt-extend next head tail ps p to s e =
    (ps, refl, Segment-EndsAt next head tail ps (some p) s, e)

-- A stretch depends on the fields of its own nodes only.
pub Segment-agree :
    (next next' : Next) (from : Option Ptr) (ps : List Ptr) (to : Option Ptr)
    → ((q : Ptr) → 1 ≤ count q ps → next' q ≡ next q)
    → Segment next from ps to
    → Segment next' from ps to
unfolding Segment count
Segment-agree next next' from [] to agree s = s
Segment-agree next next' from (p ∷ ps) to agree s =
    let here : next' p ≡ next p = agree p (ground (arith, ==_iff p p)) in
    (
      s.0,
      subst (λ o. Segment next' o ps to) (sym here)
          (Segment-agree next next' (next p) ps to (λ q i. agree q (omega (arith, i))) s.1),
    )

pub EndsAt-agree :
    (next next' : Next) (head tail : Option Ptr) (ps : List Ptr) (to : Option Ptr)
    → ((q : Ptr) → 1 ≤ count q ps → next' q ≡ next q)
    → EndsAt next head tail ps to
    → EndsAt next' head tail ps to
unfolding EndsAt count
EndsAt-agree next next' head none ps to agree s = s
EndsAt-agree next next' head (some t) ps to agree s =
    let (front, e, f, last) = s in
    let inside = λ (q : Ptr). count-append q front (t ∷ []) in
    let at = λ (q : Ptr). ap (λ l. count q l) e in
    (
      front,
      e,
      Segment-agree next next' head front (some t)
          (λ q i. agree q (omega (arith, inside q, at q, i))) f,
      agree t (EndsAt-tail next head t ps to s) ∙ last,
    )
