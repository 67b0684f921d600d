-- ===== src/Links/Walk.antt =====
-- Walking a chain, and adding to its head.
use gc_lite.Base.{
  ℕ, zero, suc, ◌+◌, ◌≤◌, ◌<◌, ◌≡◌, refl, sym, ap, ◌∙◌, subst, List, [], ◌∷◌, Option, none, some,
  update, count, length, arith, ==_iff,
}
use gc_lite.Node.{Ptr}
use gc_lite.Links.{Next, GcNodeLink, prepend, iter_next, iterate, len}
use gc_lite.Links.Segments.{Segment, IsChain, Segment-update}

iterate-chain :
    (fuel : ℕ) (next : Next) (from : Option Ptr) (ps : List Ptr)
    → length ps < fuel
    → Segment next from ps none
    → iterate fuel next from ≡ some ps
unfolding iterate iter_next Segment
iterate-chain zero next from ps lt s = absurd (omega arith)
iterate-chain (suc fuel) next from [] lt s = ap (λ o. iterate (suc fuel) next o) s
iterate-chain (suc fuel) next from (p ∷ ps) lt s =
    ap (λ o. iterate (suc fuel) next o) s.0
    ∙ rw (iterate-chain fuel next (next p) ps (omega arith) s.1) refl

len-chain :
    (fuel : ℕ) (next : Next) (from : Option Ptr) (ps : List Ptr)
    → length ps < fuel
    → Segment next from ps none
    → len fuel next from ≡ some (length ps)
unfolding len iter_next Segment
len-chain zero next from ps lt s = absurd (omega arith)
len-chain (suc fuel) next from [] lt s = ap (λ o. len (suc fuel) next o) s
len-chain (suc fuel) next from (p ∷ ps) lt s =
    ap (λ o. len (suc fuel) next o) s.0
    ∙ rw (len-chain fuel next (next p) ps (omega arith) s.1) refl

-- Prepend a node to a chain that it is not in. The iterator then yields the node and after it the
-- nodes of the chain, in order, and `len` counts one more, with fuel for one step per node and two
-- more; and the chain still visits no node twice.
pub prepend-iterate :
    (link : GcNodeLink) (node : Ptr) (ps : List Ptr) (fuel : ℕ)
    → IsChain link.next link.link_head ps
    → count node ps ≡ 0
    → length ps + 2 ≤ fuel
    → let out = prepend link node in
      (iterate fuel out.next out.link_head ≡ some (node ∷ ps))
      × (len fuel out.next out.link_head ≡ some (suc (length ps)))
      × IsChain out.next out.link_head (node ∷ ps)
unfolding prepend Segment count
prepend-iterate link node ps fuel v new enough =
    let next = update link.next node link.link_head in
    let here : next node ≡ link.link_head = ground (arith, ==_iff node node) in
    let rest : Segment next (next node) ps none =
      subst (λ o. Segment next o ps none) (sym here)
        (Segment-update link.next link.link_head ps none node link.link_head new v.linked) in
    let whole : Segment next (some node) (node ∷ ps) none = (refl, rest) in
    (
      iterate-chain fuel next (some node) (node ∷ ps) (omega arith) whole,
      len-chain fuel next (some node) (node ∷ ps) (omega arith) whole,
      record { linked = whole; once = λ q. ground (arith, v.once q, new, ==_iff node q) },
    )
