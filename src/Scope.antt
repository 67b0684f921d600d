-- ===== src/Scope.antt =====
-- Scopes and scope stacks (src/scope.rs, with `protect_node` and `protect_nodes_iter` of
-- src/heap.rs). A method of `GcScopeState` takes the heap and the scope, and gives both back; the
-- lists of a stack are innermost first, so that `last` is the head.
pub mod Nesting
pub mod Promote
pub mod Protect
use gc_lite.Base.{
  ℕ, suc, ◌+◌, ◌-◌, ◌^◌, Bool, true, false, ◌&&◌, List, [], ◌∷◌, ◌++◌, Option, none, some, ltb, leb,
  ◌==◌, if◌then◌else◌, length, get_elem?, get_or, set, modify, contains, update,
}
use gc_lite.Node.{Ptr, is_root_or_local}
use gc_lite.Gctype.{GcTypeInfo}
use gc_lite.Heap.{GcHeap, GcScopeState, ScopeStack, partition_at, write_head}
use gc_lite.Mem.{GcResult, map_ok, alloc_raw}
use gc_lite.Mark.{partition_add_gray}

unfoldable pub set_local : GcHeap → Ptr → Bool → GcHeap
set_local h node b = write_head h node (record (h.mem node) { local = b })

abbrev pub cached : GcScopeState → List Ptr
cached s = elim s.cache [ none ↦ [] | some ns ↦ ns ]

-- `add_node`: the flag, the gray list of a running cycle, the cache.
unfoldable pub scope_add_node : GcHeap → GcScopeState → Ptr → GcHeap × GcScopeState
unfolding set_local partition_add_gray
scope_add_node h s node =
    let h1 = set_local h node true in
    (
      if (partition_at h1 s.partition_id).marking
          then partition_add_gray h1 s.partition_id node
          else h1,
      record s { cache = some (cached s ++ node ∷ []) },
    )

unfoldable pub add_non_local : GcHeap → GcScopeState → Ptr → Bool × GcHeap × GcScopeState
unfolding scope_add_node
add_non_local h s node =
    if is_root_or_local (h.mem node)
    then (false, h, s)
    else (let r = scope_add_node h s node in (true, r.0, r.1))

unfoldable pub alloc_local :
    (malloc : Option Ptr) (layout_ok : GcTypeInfo → Bool)
    → GcHeap
    → GcScopeState
    → ℕ
    → List Ptr
    → GcResult ((GcHeap × GcScopeState) × Ptr)
unfolding scope_add_node alloc_raw
alloc_local malloc layout_ok h s dtype refs =
    map_ok (λ (r : GcHeap × Ptr). (scope_add_node r.0 s r.1, r.1))
      (alloc_raw malloc layout_ok h s.partition_id dtype refs)

-- `position`: the index of the first element that is `a`.
unfoldable pub position : List Ptr → Ptr → Option ℕ
position [] a = none
position (x ∷ xs) a =
    let later : Option ℕ = elim (position xs a) [ none ↦ none | some i ↦ some (suc i) ] in
    if x == a then some 0 else later

abbrev pub last_or : List Ptr → Ptr → Ptr
last_or [] d = d
last_or (x ∷ xs) d = last_or xs x

abbrev pub drop_last : List Ptr → List Ptr
drop_last [] = []
drop_last (x ∷ []) = []
drop_last (x ∷ y ∷ xs) = x ∷ drop_last (y ∷ xs)

-- The last element takes the place of the one removed.
unfoldable pub swap_remove : List Ptr → ℕ → List Ptr
swap_remove xs i = drop_last (set xs i (last_or xs 0))

unfoldable pub scope_remove_node : GcHeap → GcScopeState → Ptr → Bool × GcHeap × GcScopeState
unfolding set_local position swap_remove
scope_remove_node h s node = elim (position (cached s) node) [
  | none ↦ (false, h, s)
  | some pos ↦
      (true, set_local h node false, record s { cache = some (swap_remove (cached s) pos) })
]

abbrev pub scope_contains : GcScopeState → Ptr → Bool
scope_contains s node = contains (cached s) node

-- The node moves from the cache of the scope at `s` to that of the scope at `target`; its flag stays.
-- Scopes are looked up by address, since the two references may be to one scope.
unfoldable pub promote_node_to :
    (Ptr → GcScopeState) → Ptr → Ptr → Ptr → Bool × (Ptr → GcScopeState)
unfolding position swap_remove
promote_node_to scopes s node target =
    let cache = cached (scopes s) in
    elim (position cache node) [
      | none ↦ (false, scopes)
      | some pos ↦
          let taken =
            update scopes s (record (scopes s) { cache = some (swap_remove cache pos) }) in
          let to = taken target in
          (true, update taken target (record to { cache = some (cached to ++ node ∷ []) }))
    ]

unfoldable pub unprotect : List Ptr → GcHeap → GcHeap
unfolding set_local
unprotect [] h = h
unprotect (n ∷ rest) h = unprotect rest (set_local h n false)

unfoldable pub clear : GcHeap → GcScopeState → GcHeap × GcScopeState
unfolding unprotect
clear h s = (unprotect (cached s) h, record s { cache = none })

abbrev pub no_stack : ScopeStack
no_stack = record { list = []; partition = none }

abbrev pub stack_at : GcHeap → ℕ → ScopeStack
stack_at h id = get_or h.scope_stacks id no_stack

abbrev pub modify_stack : GcHeap → ℕ → (ScopeStack → ScopeStack) → GcHeap
modify_stack h id f = record h { scope_stacks = modify h.scope_stacks id f }

-- The first stack without a partition takes `par`; `none` where all are taken.
unfoldable pub take_idle : ℕ → List ScopeStack → Option (ℕ × List ScopeStack)
take_idle par [] = none
take_idle par (stack ∷ rest) =
    let later : Option (ℕ × List ScopeStack) = elim (take_idle par rest) [
      | none ↦ none
      | some (id, stacks) ↦ some (suc id, stack ∷ stacks)
    ] in
    elim stack.partition [
      | none ↦ some (0, record stack { partition = some par } ∷ rest)
      | some p ↦ later
    ]

-- `none` is the panic "too many scope stacks".
unfoldable pub acquire_scope_stack : GcHeap → ℕ → Option (GcHeap × ℕ)
unfolding take_idle
acquire_scope_stack h par =
    let id = length h.scope_stacks in
    elim (take_idle par h.scope_stacks) [
      | some (i, stacks) ↦ some (record h { scope_stacks = stacks }, i)
      | none ↦
          if leb (2 ^ 16) id
          then none
          else some (
            record h {
              scope_stacks = h.scope_stacks ++ record { list = []; partition = some par } ∷ [];
            },
            id,
          )
    ]

unfoldable pub release_scope_stack : GcHeap → ℕ → GcHeap
release_scope_stack h id = modify_stack h id (λ stack. record stack { partition = none })

unfoldable pub scope_max_depth : GcHeap → ℕ → ℕ
scope_max_depth h id = length (stack_at h id).list

-- `depth` counts from the outermost scope, which is 1.
unfoldable pub scope : GcHeap → ℕ → ℕ → Option GcScopeState
unfolding scope_max_depth
scope h id depth =
    let n = scope_max_depth h id in
    if ltb 0 depth && leb depth n then get_elem? (stack_at h id).list (n - depth) else none

unfoldable pub parent : GcHeap → GcScopeState → Option (GcScopeState × ℕ)
unfolding scope
parent h s =
    if ltb 1 s.depth
    then elim (scope h s.stack_id (s.depth - 1)) [ none ↦ none | some p ↦ some (p, s.depth - 1) ]
    else none

unfoldable pub current_scope : GcHeap → ℕ → Option GcScopeState
current_scope h id = get_elem? (stack_at h id).list 0

-- `none` is a panic: the stack has no partition, or too many scopes.
unfoldable pub new_scope : GcHeap → ℕ → Option GcHeap
new_scope h id =
    let stack = stack_at h id in
    elim stack.partition [
      | none ↦ none
      | some pid ↦
          if leb (2 ^ 32 - 1) (length stack.list)
          then none
          else let s : GcScopeState = record {
            partition_id = pid;
            stack_id = id;
            depth = length stack.list + 1;
            cache = none;
          } in
            some (modify_stack h id (λ k. record k { list = s ∷ k.list }))
    ]

abbrev pub tail {ℓ} : {A : Type ℓ} → List A → List A
tail [] = []
tail (x ∷ xs) = xs

unfoldable pub pop_scope : GcHeap → ℕ → Option GcScopeState × GcHeap
unfolding current_scope
pop_scope h id =
    (current_scope h id, modify_stack h id (λ stack. record stack { list = tail stack.list }))

-- The handle is dropped: the scope is popped, and dropping it clears it.
unfoldable pub drop_scope : GcHeap → ℕ → GcHeap
unfolding pop_scope clear
drop_scope h id = let r = pop_scope h id in elim r.0 [ none ↦ r.1 | some s ↦ (clear r.1 s).0 ]

-- The top scope of a stack is written back.
abbrev pub write_top : GcHeap → ℕ → GcScopeState → GcHeap
write_top h id s = modify_stack h id (λ stack. record stack { list = set stack.list 0 s })

unfoldable pub protect_node : GcHeap → ℕ → Ptr → Bool × GcHeap
unfolding current_scope add_non_local
protect_node h id node = elim (current_scope h id) [
  | none ↦ (false, h)
  | some s ↦ let r = add_non_local h s node in (r.0, write_top r.1 id r.2)
]

-- `protect_nodes_iter` and `protect_nodes`.
unfoldable pub protect_nodes : GcHeap → ℕ → List Ptr → GcHeap
unfolding protect_node
protect_nodes h id [] = h
protect_nodes h id (n ∷ rest) = protect_nodes (protect_node h id n).1 id rest
