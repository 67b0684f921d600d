-- ===== src/Links/Kept.antt =====
-- One pass of `sweep_dispose` over the chain.
use gc_lite.Base.{
  ℕ, zero, suc, ◌+◌, ◌≤◌, ◌<◌, ◌≡◌, refl, sym, ap, ◌∙◌, subst, Bool, true, false, not, List, [],
  ◌∷◌, ◌++◌, Option, none, some, count, count-append, length, keep, arith, ==_iff, if◌then◌else◌,
  Bool-cases, inl, inr,
}
use mathlib.Core.List.{append-nil, append_assoc}
use gc_lite.Node.{Ptr}
use gc_lite.Links.{Next, empty, push_tail, Pass, pass_node, pass_loop}
use gc_lite.Links.Segments.{Segment, IsChain, EndsAt, Segment-EndsAt, count-keep-le}
use gc_lite.Links.Split.{Built, pushed, Built-push, Segment-push}

-- The pass so far: the kept list and what is left of the chain, apart from each other.
record IsPass (current : Option Ptr) (ks xs : List Ptr) (s : Pass) : Type 0 where
  kept : Built s.next s.kept ks
  rest : Segment s.next current xs none
  once : (q : Ptr) → count q ks + count q xs ≤ 1

abbrev kept_node : Ptr → Pass → Pass
kept_node p s = record s { next = pushed s.next s.kept p; kept = push_tail s.kept p }

abbrev disposed_node : Ptr → Pass → Pass
disposed_node p s = record s { disposed = s.disposed ++ (p ∷ []) }

pass_node_cases :
    (f : Ptr → Bool) (p : Ptr) (s : Pass) (b : Bool)
    → f p ≡ b
    → pass_node f p s ≡ (if b then disposed_node p s else kept_node p s)
unfolding pass_node
pass_node_cases f p s b e = ap (λ c. if c then disposed_node p s else kept_node p s) e

kept_step :
    (current : Option Ptr) (ks xs : List Ptr) (p : Ptr) (s : Pass)
    → IsPass current ks (p ∷ xs) s
    → IsPass (s.next p) (ks ++ (p ∷ [])) xs (kept_node p s)
unfolding count Segment
kept_step current ks xs p s v = record {
  kept =
      Built-push s.next s.kept ks p (λ q. ground (arith, v.once q))
        (ground (arith, v.once p, ==_iff p p)) v.kept;
  rest =
      Segment-push s.next s.kept ks p (s.next p) none xs v.kept (λ q. ground (arith, v.once q))
        v.rest.1;
  once = λ q. ground (arith, v.once q, count-append q ks (p ∷ []));
}

pass_loop-IsPass :
    (fuel : ℕ) (f : Ptr → Bool) (current : Option Ptr) (ks xs : List Ptr) (s : Pass)
    → length xs < fuel
    → IsPass current ks xs s
    → (out : Pass) × (pass_loop fuel f current s ≡ some out)
      × IsPass none (ks ++ keep (λ p. not (f p)) xs) [] out
      × (out.disposed ≡ s.disposed ++ keep f xs)
unfolding pass_loop Segment count
pass_loop-IsPass zero f current ks xs s lt v = absurd (omega arith)
pass_loop-IsPass (suc fuel) f current ks [] s lt v = (
  s,
  ap (λ o. pass_loop (suc fuel) f o s) v.rest,
  rw (append-nil ks) (subst (λ o. IsPass o ks [] s) v.rest v),
  sym (append-nil s.disposed),
)
pass_loop-IsPass (suc fuel) f current ks (p ∷ xs) s lt v =
    subst
      (λ o.
        (out : Pass) × (pass_loop (suc fuel) f o s ≡ some out)
        × IsPass none (ks ++ keep (λ p. not (f p)) (p ∷ xs)) [] out
        × (out.disposed ≡ s.disposed ++ keep f (p ∷ xs)))
      (sym v.rest.0)
      (elim (Bool-cases (f p)) [
        | inl goes ↦
            let (out, ran, w, gone) =
              pass_loop-IsPass fuel f (s.next p) ks xs (disposed_node p s) (omega arith)
                (record { kept = v.kept; rest = v.rest.1; once = λ q. ground (arith, v.once q) }) in
            (
              out,
              ap (pass_loop fuel f (s.next p)) (pass_node_cases f p s true goes) ∙ ran,
              rw goes w,
              rw goes (gone ∙ append_assoc s.disposed (p ∷ []) (keep f xs)),
            )
        | inr stays ↦
            let (out, ran, w, gone) =
              pass_loop-IsPass fuel f (s.next p) (ks ++ (p ∷ [])) xs (kept_node p s) (omega arith)
                (kept_step current ks xs p s v) in
            (
              out,
              ap (pass_loop fuel f (s.next p)) (pass_node_cases f p s false stays) ∙ ran,
              subst (λ l. IsPass none l [] out)
                  (append_assoc ks (p ∷ []) (keep (λ p. not (f p)) xs) ∙ rw stays refl) w,
              rw stays gone,
            )
      ])

-- Run one pass of the disposal over a chain that visits the nodes of a list, each once. With more fuel
-- than there are nodes it ends; the nodes of the pass have been disposed of, in order, and the kept
-- list is a chain of the others, in order and each once.
pub pass_loop-keep :
    (fuel : ℕ) (in_pass : Ptr → Bool) (next : Next) (head : Option Ptr) (ps : List Ptr)
    → length ps < fuel
    → IsChain next head ps
    → (out : Pass) × (pass_loop fuel in_pass head
          (record { next = next; kept = empty; disposed = [] })
        ≡ some out)
      × IsChain out.next out.kept.head (keep (λ p. not (in_pass p)) ps)
      × (out.disposed ≡ keep in_pass ps)
unfolding EndsAt count
pass_loop-keep fuel in_pass next head ps lt chain =
    let (out, ran, w, gone) =
      pass_loop-IsPass fuel in_pass head [] ps (record { next = next; kept = empty; disposed = [] })
        lt
        (record {
          kept = (refl, refl);
          rest = chain.linked;
          once = λ q. omega (arith, chain.once q);
        }) in
    (
      out,
      ran,
      record {
        linked = Segment-EndsAt out.next out.kept.head out.kept.tail _ none w.kept;
        once = λ q. omega (arith, chain.once q, count-keep-le (λ p. not (in_pass p)) ps q);
      },
      gone,
    )
