-- ===== src/Scope/Protect.antt =====
-- The nodes that a scope protects, from its opening to its end.
use gc_lite.Base.{
  some-inj, ℕ, zero, suc, ◌+◌, ◌-◌, ◌^◌, ◌≡◌, ◌<◌, refl, ap, ◌∙◌, true, false, not, ◌&&◌, ◌||◌,
  List, [], ◌∷◌, arith, contains, contains-append, length, ==_iff, Bool-cases, inl, inr, subst,
  some, leb, get_or, modify, Option-cases, ◌∈◌, set, ◌==◌,
}
use gc_lite.Node.{color_cases, Ptr, GcHead, is_root_or_local}
use gc_lite.Heap.{GcHeap, GcScopeState, ScopeStack, partition_at}
use gc_lite.Mark.{partition_add_gray}
use gc_lite.Scope.{
  set_local, cached, new_scope, drop_scope, pop_scope, current_scope, modify_stack, stack_at,
  no_stack, tail, scope_add_node, add_non_local, protect_node, protect_nodes, write_top,
}
use gc_lite.Scope.Nesting.{clear_lem, modify-modify, get_or-modify_some, opened, push_scope}

modify-twice :
    {A : Type 0} (xs : List A) (i : ℕ) (f g k : A → A)
    → ((x : A) → g (f x) ≡ k x)
    → modify (modify xs i f) i g ≡ modify xs i k
modify-twice [] i f g k both = refl
modify-twice (x ∷ xs) zero f g k both = ap (λ y. y ∷ xs) (both x)
modify-twice (x ∷ xs) (suc i) f g k both = ap (λ ys. x ∷ ys) (modify-twice xs i f g k both)

-- The heap `m`, where the scope `s` opened on the stack `id` of `h`. The local nodes are those of `h`
-- and those that the scope protects, which were not local in `h`.
record IsOpen (h : GcHeap) (id : ℕ) (m : GcHeap) (s : GcScopeState) : Type 0 where
  stacks : m.scope_stacks ≡ modify h.scope_stacks id (push_scope s)
  flags : (q : Ptr) → (m.mem q).local ≡ ((h.mem q).local || contains (cached s) q)
  fresh : (q : Ptr) → q ∈ cached s → (h.mem q).local ≡ false
  root : (q : Ptr) → (m.mem q).root ≡ (h.mem q).root

partition_add_gray-flags :
    (h : GcHeap) (pid : ℕ) (n q : Ptr)
    → let g = partition_add_gray h pid n in
      ((g.mem q).local ≡ (h.mem q).local)
      × ((g.mem q).root ≡ (h.mem q).root)
      × (g.scope_stacks ≡ h.scope_stacks)
unfolding partition_add_gray
partition_add_gray-flags h pid n q = elim (color_cases (h.mem n).color) [
  | inl is_black ↦ rw (is_black, partition_add_gray) (refl, refl, refl)
  | inr (inl is_white) ↦
      rw (is_white, partition_add_gray)
        (ground (arith, ==_iff n q), ground (arith, ==_iff n q), ground arith)
  | inr (inr is_gray) ↦
      rw (is_gray, partition_add_gray)
        (ground (arith, ==_iff n q), ground (arith, ==_iff n q), ground arith)
]

-- The flags after `scope_add_node`, whether or not a cycle runs.
record Added (m : GcHeap) (s : GcScopeState) (n : Ptr) (r : GcHeap × GcScopeState) : Type 0 where
  stacks : r.0.scope_stacks ≡ m.scope_stacks
  flags : (q : Ptr) → (r.0.mem q).local ≡ ((m.mem q).local || n == q)
  root : (q : Ptr) → (r.0.mem q).root ≡ (m.mem q).root
  cache : (q : Ptr) → contains (cached r.1) q ≡ (contains (cached s) q || n == q)

scope_add_node-Added :
    (m : GcHeap) (s : GcScopeState) (n : Ptr) → Added m s n (scope_add_node m s n)
unfolding scope_add_node set_local
scope_add_node-Added m s n =
    let g = set_local m n true in
    let grayed = λ (q : Ptr). partition_add_gray-flags g s.partition_id n q in
    elim (Bool-cases (partition_at g s.partition_id).marking) [
      | inl runs ↦
          rw (runs, scope_add_node)
            (record {
              stacks = (grayed 0).2;
              flags = λ q. (grayed q).0 ∙ ground (arith, ==_iff n q);
              root = λ q. (grayed q).1 ∙ ground (arith, ==_iff n q);
              cache = λ q. ground (arith, contains-append (cached s) (n ∷ []) q);
            })
      | inr rests ↦
          rw (rests, scope_add_node)
            (record {
              stacks = refl;
              flags = λ q. ground (arith, ==_iff n q);
              root = λ q. ground (arith, ==_iff n q);
              cache = λ q. ground (arith, contains-append (cached s) (n ∷ []) q);
            })
    ]

module _ (h : GcHeap) (id : ℕ) (lt : id < length h.scope_stacks) where
  top_open : (m : GcHeap) (s : GcScopeState) → IsOpen h id m s → current_scope m id ≡ some s
  unfolding current_scope
  top_open m s o =
      let at =
        ap (λ (l : List ScopeStack). get_or l id no_stack) o.stacks
        ∙ get_or-modify_some h.scope_stacks id (push_scope s) no_stack lt in
      rw (at, current_scope) refl

  write_back :
      (m : GcHeap) (s s' : GcScopeState)
      → m.scope_stacks ≡ modify h.scope_stacks id (push_scope s)
      → (write_top m id s').scope_stacks ≡ modify h.scope_stacks id (push_scope s')
  write_back m s s' e =
      let put = λ (k : ScopeStack). record k { list = set k.list 0 s' } in
      ap (λ (l : List ScopeStack). modify l id put) e
      ∙ modify-twice h.scope_stacks id (push_scope s) put (push_scope s') (λ x. refl)

  -- Where a scope is open, it is still open after `protect_node`, and only that node's flag is new.
  record Protected (m g : GcHeap) (ns : List Ptr) : Type 0 where
    state : GcScopeState
    still : IsOpen h id g state
    local : (q : Ptr) → (g.mem q).local ≡ ((m.mem q).local || (contains ns q && not (h.mem q).root))

  protect_node-Protected :
      (m : GcHeap) (s : GcScopeState) (n : Ptr)
      → IsOpen h id m s
      → Protected m (protect_node m id n).1 (n ∷ [])
  unfolding protect_node add_non_local
  protect_node-Protected m s n o = elim (Bool-cases (is_root_or_local (m.mem n))) [
    | inl held ↦
        rw (top_open m s o, held, protect_node)
          (record {
            state = s;
            still = record {
              stacks = write_back m s s o.stacks;
              flags = o.flags;
              fresh = o.fresh;
              root = o.root;
            };
            local = λ q. ground (arith, o.root q, ==_iff n q, held);
          })
    | inr free ↦
        let r = scope_add_node m s n in
        let a = scope_add_node-Added m s n in
        rw (top_open m s o, free, protect_node)
          (record {
            state = r.1;
            still = record {
              stacks = write_back r.0 s r.1 (a.stacks ∙ o.stacks);
              flags = λ q. ground (arith, a.flags q, a.cache q, o.flags q);
              fresh = λ q i. ground (arith, a.cache q, o.fresh q, o.flags q, ==_iff n q, free);
              root = λ q. a.root q ∙ o.root q;
            };
            local = λ q. ground (arith, a.flags q, o.root q, ==_iff n q, free);
          })
  ]

  protect_nodes-Protected :
      (ns : List Ptr) (m : GcHeap) (s : GcScopeState)
      → IsOpen h id m s
      → Protected m (protect_nodes m id ns) ns
  unfolding protect_nodes
  protect_nodes-Protected [] m s o = record { state = s; still = o; local = λ q. ground arith }
  protect_nodes-Protected (n ∷ ns) m s o =
      let first = protect_node-Protected m s n o in
      let later = protect_nodes-Protected ns (protect_node m id n).1 first.state first.still in
      record {
        state = later.state;
        still = later.still;
        local = λ q. ground (arith, later.local q, first.local q);
      }

  -- The end of an open scope.
  drop_scope-IsOpen :
      (m : GcHeap) (s : GcScopeState)
      → IsOpen h id m s
      → ((q : Ptr) → ((drop_scope m id).mem q).local ≡ (h.mem q).local)
        × ((q : Ptr) → ((drop_scope m id).mem q).root ≡ (h.mem q).root)
        × ((drop_scope m id).scope_stacks ≡ h.scope_stacks)
  unfolding drop_scope pop_scope
  drop_scope-IsOpen m s o =
      let pop = λ (k : ScopeStack). record k { list = tail k.list } in
      let (mem, _p, stacks, _w, _c) = clear_lem (modify_stack m id pop) s in
      rw (top_open m s o, drop_scope)
        (
          λ q. ap (λ (n : GcHead). n.local) (mem q) ∙ ground (arith, o.flags q, o.fresh q),
          λ q. ap (λ (n : GcHead). n.root) (mem q) ∙ o.root q,
          stacks
              ∙ ap (λ (l : List ScopeStack). modify l id pop) o.stacks
              ∙ modify-modify h.scope_stacks id (push_scope s) pop (λ x. refl),
        )

  new_scope-IsOpen :
      (g : GcHeap)
      → new_scope h id ≡ some g
      → (s : GcScopeState) × IsOpen h id g s × (g.mem ≡ h.mem)
  unfolding new_scope
  new_scope-IsOpen g e = elim (Option-cases (stack_at h id).partition) [
    | inl none_ ↦ cc (rw (none_, new_scope) at e)
    | inr (pid, has) ↦ elim (Bool-cases (leb (2 ^ 32 - 1) (length (stack_at h id).list))) [
      | inl full ↦ cc (rw (has, full, new_scope) at e)
      | inr room ↦
          let s = opened pid id (length (stack_at h id).list + 1) in
          subst (λ (k : GcHeap). (t : GcScopeState) × IsOpen h id k t × (k.mem ≡ h.mem))
            (some-inj (rw (has, room, new_scope) at e))
            (
              s,
              record {
                stacks = refl;
                flags = λ q. ground arith;
                fresh = λ q i. cc i;
                root = λ q. refl;
              },
              refl,
            )
    ]
  ]

-- A scope opens on a stack of the heap, then `protect_nodes` gets some nodes, and the scope closes.
-- While it is open the local nodes are those from before and the given ones that are no roots. After
-- it has closed a node is local, or a root, exactly if it was before the scope opened, and the
-- scope stacks are as before.
pub new_scope-drop_scope :
    (h : GcHeap) (id : ℕ) (g : GcHeap) (ns : List Ptr)
    → id < length h.scope_stacks
    → new_scope h id ≡ some g
    → let within = protect_nodes g id ns in
      let after = drop_scope within id in
      ((q : Ptr)
        → (within.mem q).local ≡ ((h.mem q).local || (contains ns q && not (h.mem q).root)))
      × ((q : Ptr) → (after.mem q).local ≡ (h.mem q).local)
      × ((q : Ptr) → (after.mem q).root ≡ (h.mem q).root)
      × (after.scope_stacks ≡ h.scope_stacks)
new_scope-drop_scope h id g ns lt e =
    let (s, o, same) = new_scope-IsOpen h id lt g e in
    let p = protect_nodes-Protected h id lt ns g s o in
    let (local, root, stacks) = drop_scope-IsOpen h id lt (protect_nodes g id ns) p.state p.still in
    (λ q. rw (ap (λ (mem : Ptr → GcHead). (mem q).local) same) at (p.local q), local, root, stacks)
