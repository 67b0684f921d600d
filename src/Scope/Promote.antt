-- ===== src/Scope/Promote.antt =====
-- Moving a node between the caches of two scopes, or within one.
use gc_lite.Base.{
  some-inj, count, count-append, ℕ, zero, suc, ◌+◌, ◌≡◌, ◌<◌, refl, ap, sym, List, [], ◌∷◌, ◌++◌,
  arith, ◌==◌, if◌then◌else◌, contains, ◌∈◌, ◌∉◌, true, false, ◌&&◌, update, length, ==_iff,
  Bool-cases, inl, inr, subst, some, none, get_or, set, Option-cases,
}
use gc_lite.Node.{Ptr}
use gc_lite.Heap.{GcScopeState}
use gc_lite.Scope.{cached, position, swap_remove, last_or, drop_last, promote_node_to}

count-drop_last :
    (q x : Ptr) (xs : List Ptr)
    → count q (x ∷ xs) ≡ count q (drop_last (x ∷ xs)) + (if last_or xs x == q then 1 else 0)
unfolding count
count-drop_last q x [] = omega arith
count-drop_last q x (y ∷ ys) = omega (arith, count-drop_last q y ys)

last_or-set : (xs : List Ptr) (i : ℕ) (v d : Ptr) → v ≡ last_or xs d → last_or (set xs i v) d ≡ v
last_or-set [] i v d e = sym e
last_or-set (x ∷ []) zero v d e = refl
last_or-set (x ∷ y ∷ ys) zero v d e = sym e
last_or-set (x ∷ xs) (suc i) v d e = last_or-set xs i v x e

count-set :
    (q : Ptr) (xs : List Ptr) (i : ℕ) (v : Ptr)
    → i < length xs
    → count q (set xs i v) + (if get_or xs i 0 == q then 1 else 0)
      ≡ count q xs + (if v == q then 1 else 0)
unfolding count
count-set q [] i v lt = absurd (omega arith)
count-set q (x ∷ xs) zero v lt = omega arith
count-set q (x ∷ xs) (suc i) v lt = omega (arith, count-set q xs i v (omega arith))

position-some :
    (xs : List Ptr) (a : Ptr) (i : ℕ)
    → position xs a ≡ some i
    → (i < length xs) × (get_or xs i 0 ≡ a)
unfolding position
position-some [] a i e = cc
position-some (x ∷ xs) a i e = elim (Bool-cases (x == a)) [
  | inl here ↦
      let z : 0 ≡ i = some-inj (rw here at e) in
      subst (λ (j : ℕ). (j < suc (length xs)) × (get_or (x ∷ xs) j 0 ≡ a)) z
        (omega arith, ground arith)
  | inr there ↦ elim (Option-cases (position xs a)) [
    | inl none_ ↦ cc (rw (there, none_) at e)
    | inr (j, found) ↦
        let z : suc j ≡ i = some-inj (rw (there, found) at e) in
        let (lt, at) = position-some xs a j found in
        subst (λ (k : ℕ). (k < suc (length xs)) × (get_or (x ∷ xs) k 0 ≡ a)) z
          (omega (arith, lt), at)
  ]
]

position-none : (xs : List Ptr) (a : Ptr) → position xs a ≡ none → a ∉ xs
unfolding position
position-none [] a e = refl
position-none (x ∷ xs) a e = elim (Bool-cases (x == a)) [
  | inl here ↦ cc (rw here at e)
  | inr there ↦ elim (Option-cases (position xs a)) [
    | inl none_ ↦ ground (arith, position-none xs a none_)
    | inr (j, found) ↦ cc (rw (there, found) at e)
  ]
]

abbrev hit : Ptr → Ptr → ℕ
hit q a = if a == q then 1 else 0

last_eq : (q : Ptr) {a b : Ptr} → a ≡ b → hit q a ≡ hit q b
last_eq q e = ap (hit q) e

count-one : (q a : Ptr) → count q (a ∷ []) ≡ (if a == q then 1 else 0)
unfolding count
count-one q a = omega arith

contains-position : (xs : List Ptr) (a : Ptr) (i : ℕ) → i < length xs → get_or xs i 0 ≡ a → a ∈ xs
contains-position [] a i lt e = absurd (omega arith)
contains-position (x ∷ xs) a zero lt e = ground (arith, ==_iff x a)
contains-position (x ∷ xs) a (suc i) lt e = ground (arith, contains-position xs a i (omega arith) e)

-- `swap_remove` at the place of a node takes one occurrence of that node.
count-swap_remove :
    (q : Ptr) (xs : List Ptr) (i : ℕ)
    → i < length xs
    → count q (swap_remove xs i) + (if get_or xs i 0 == q then 1 else 0) ≡ count q xs
unfolding swap_remove
count-swap_remove q [] i lt = absurd (omega arith)
count-swap_remove q (x ∷ xs) zero lt =
    let v = last_or (x ∷ xs) 0 in
    omega (
      arith,
      count-set q (x ∷ xs) zero v lt,
      count-drop_last q v xs,
      last_eq q (last_or-set (x ∷ xs) zero v 0 refl),
    )
count-swap_remove q (x ∷ xs) (suc i) lt =
    let v = last_or (x ∷ xs) 0 in
    omega (
      arith,
      count-set q (x ∷ xs) (suc i) v lt,
      count-drop_last q x (set xs i v),
      last_eq q (last_or-set (x ∷ xs) (suc i) v 0 refl),
    )

-- A scope but for its cache.
abbrev pub uncached : GcScopeState → GcScopeState
uncached s = record s { cache = none }

-- The scopes after the one at `s` lost the entry `i` of its cache.
abbrev left_by : (Ptr → GcScopeState) → Ptr → ℕ → Ptr → GcScopeState
left_by scopes s i =
    update scopes s (record (scopes s) { cache = some (swap_remove (cached (scopes s)) i) })

-- A node leaves a cache.
count-leave :
    (scopes : Ptr → GcScopeState) (s node : Ptr) (i : ℕ) (a q : Ptr)
    → i < length (cached (scopes s))
    → get_or (cached (scopes s)) i 0 ≡ node
    → count q (cached (left_by scopes s i a)) + (if a == s && node == q then 1 else 0)
      ≡ count q (cached (scopes a))
count-leave scopes s node i a q lt at = elim (Bool-cases (a == s)) [
  | inl same ↦
      let own : a ≡ s = ground (arith, ==_iff a s) in
      rw own
        (ground (arith, ==_iff s s, count-swap_remove q (cached (scopes s)) i lt, last_eq q at))
  | inr other ↦ ground (arith, ==_iff a s, ==_iff s a)
]

-- A node joins a cache.
count-join :
    (scopes : Ptr → GcScopeState) (target node : Ptr) (a q : Ptr)
    → count q (
        cached (
          update scopes target
            (record (scopes target) { cache = some (cached (scopes target) ++ node ∷ []) })
            a))
      ≡ count q (cached (scopes a)) + (if a == target && node == q then 1 else 0)
count-join scopes target node a q = elim (Bool-cases (a == target)) [
  | inl same ↦
      let own : a ≡ target = ground (arith, ==_iff a target) in
      rw own (
        ground (
          arith,
          ==_iff target target,
          count-append q (cached (scopes target)) (node ∷ []),
          count-one q node,
        ))
  | inr other ↦ ground (arith, ==_iff a target, ==_iff target a)
]

-- `promote_node_to` reports whether the node was in the scope's cache. If it was, the cache of the
-- scope holds it once less and that of the target once more; a target that is the scope itself holds
-- it as often as before. Apart from that each cache holds each node as often as before, whether the
-- node was found or not, and of a scope nothing but the cache changes.
pub promote_node_to-count :
    (scopes : Ptr → GcScopeState) (s node target : Ptr)
    → let r = promote_node_to scopes s node target in
      let found = contains (cached (scopes s)) node in
      (r.0 ≡ found)
      × ((a : Ptr) (q : Ptr)
          → count q (cached (r.1 a)) + (if found && a == s && node == q then 1 else 0)
            ≡ count q (cached (scopes a)) + (if found && a == target && node == q then 1 else 0))
      × ((a : Ptr) → uncached (r.1 a) ≡ uncached (scopes a))
unfolding promote_node_to
promote_node_to-count scopes s node target =
    elim (Option-cases (position (cached (scopes s)) node)) [
      | inl none_ ↦
          let absent : contains (cached (scopes s)) node ≡ false =
            position-none (cached (scopes s)) node none_ in
          rw (none_, promote_node_to, absent) (refl, λ a q. refl, λ a. refl)
      | inr (i, found) ↦
          let (lt, at) = position-some (cached (scopes s)) node i found in
          let present : contains (cached (scopes s)) node ≡ true =
            contains-position (cached (scopes s)) node i lt at in
          rw (found, promote_node_to, present)
            (
              refl,
              λ a q. omega (
                arith,
                count-leave scopes s node i a q lt at,
                count-join (left_by scopes s i) target node a q,
              ),
              λ a. ground (
                arith,
                ==_iff a target,
                ==_iff a s,
                ==_iff target s,
                ==_iff target a,
                ==_iff s a,
              ),
            )
    ]
