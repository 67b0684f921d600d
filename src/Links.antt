-- ===== src/Links.antt =====
-- The chains of nodes as they lie in memory (src/node_link.rs, and the loops of src/mark_sweep.rs that
-- relink a chain): each header has the address of the next one. A loop takes fuel, `none` when it runs
-- out; a callback is shown by the nodes that it was called with, in order.
pub mod Segments
pub mod Walk
pub mod Filter
pub mod Split
pub mod Kept
pub mod Refines
use gc_lite.Base.{
  ℕ, zero, suc, ◌+◌, Bool, true, false, not, List, [], ◌∷◌, ◌++◌, Option, none, some, ◌==◌,
  if◌then◌else◌, update,
}
use gc_lite.Node.{Ptr}

-- The field `next` of the headers, by address.
abbrev pub Next : Type 0
Next = Ptr → Option Ptr

pub record GcNodeLink : Type 0 where
  pub next : Next
  pub link_head : Option Ptr

-- `prepend`
unfoldable pub prepend : GcNodeLink → Ptr → GcNodeLink
prepend link node = record { next = update link.next node link.link_head; link_head = some node }

-- `NodeLinkIter::next`: the node that it yields and the iterator's new state.
unfoldable pub iter_next : Next → Option Ptr → Option (Ptr × Option Ptr)
iter_next next none = none
iter_next next (some current) = some (current, next current)

-- All nodes that the iterator yields.
unfoldable pub iterate : ℕ → Next → Option Ptr → Option (List Ptr)
unfolding iter_next
iterate zero next current = none
iterate (suc fuel) next current = elim (iter_next next current) [
  | none ↦ some []
  | some (node, rest) ↦ elim (iterate fuel next rest) [ none ↦ none | some ns ↦ some (node ∷ ns) ]
]

-- `iter().count()`
unfoldable pub len : ℕ → Next → Option Ptr → Option ℕ
unfolding iter_next
len zero next current = none
len (suc fuel) next current = elim (iter_next next current) [
  | none ↦ some 0
  | some (node, rest) ↦ elim (len fuel next rest) [ none ↦ none | some n ↦ some (suc n) ]
]

-- `prev_node.next = next`, or the head of the list.
unfoldable pub unlink : GcNodeLink → Option Ptr → Option Ptr → GcNodeLink
unlink link none after = record link { link_head = after }
unlink link (some prev) after = record link { next = update link.next prev after }

-- The loop of `filter_remove_with`: the chain, and the nodes given to `remove_fn`.
unfoldable pub filter_loop :
    ℕ
    → (Ptr → Bool)
    → GcNodeLink
    → Option Ptr
    → Option Ptr
    → List Ptr
    → Option (GcNodeLink × List Ptr)
unfolding unlink
filter_loop zero predicate link prev current removed = none
filter_loop (suc fuel) predicate link prev none removed = some (link, removed)
filter_loop (suc fuel) predicate link prev (some node) removed =
    let after = link.next node in
    let goes = predicate node in
    filter_loop fuel predicate (if goes then unlink link prev after else link)
      (if goes then prev else some node) after (if goes then removed ++ (node ∷ []) else removed)

unfoldable pub filter_remove_with : ℕ → (Ptr → Bool) → GcNodeLink → Option (GcNodeLink × List Ptr)
unfolding filter_loop
filter_remove_with fuel predicate link = filter_loop fuel predicate link none link.link_head []

-- A list under construction: its head and its tail.
pub record Builder : Type 0 where
  pub head : Option Ptr
  pub tail : Option Ptr

abbrev pub empty : Builder
empty = record { head = none; tail = none }

-- `this` at the end: linked from the tail, or the head.
unfoldable pub link_tail : Next → Builder → Ptr → Next
link_tail next b this = elim b.tail [ none ↦ next | some tail ↦ update next tail (some this) ]

unfoldable pub push_tail : Builder → Ptr → Builder
push_tail b this = record {
  head = elim b.tail [ none ↦ some this | some tail ↦ b.head ];
  tail = some this;
}

-- The walk of `sweep_unlink`: memory, the white list and the list of survivors.
pub record Halves : Type 0 where
  pub next : Next
  pub white : Builder
  pub survivors : Builder

-- One node of the walk: detached from the old chain, then linked to one of the lists.
unfoldable pub place : (Ptr → Bool) → Ptr → Halves → Halves
unfolding link_tail push_tail
place is_white_non_root this s =
    let detached = update s.next this none in
    if is_white_non_root this
    then record s { next = link_tail detached s.white this; white = push_tail s.white this }
    else record s {
      next = link_tail detached s.survivors this;
      survivors = push_tail s.survivors this;
    }

unfoldable pub split_loop : ℕ → (Ptr → Bool) → Option Ptr → Halves → Option Halves
unfolding place
split_loop zero is_white_non_root current s = none
split_loop (suc fuel) is_white_non_root none s = some s
split_loop (suc fuel) is_white_non_root (some this) s =
    split_loop fuel is_white_non_root (s.next this) (place is_white_non_root this s)

-- `sweep_dispose`, one pass: the nodes of the pass are disposed of, the others kept on a new list.
pub record Pass : Type 0 where
  pub next : Next
  pub kept : Builder
  pub disposed : List Ptr

unfoldable pub pass_node : (Ptr → Bool) → Ptr → Pass → Pass
unfolding link_tail push_tail
pass_node in_pass this s =
    if in_pass this then record s { disposed = s.disposed ++ (this ∷ []) } else record s {
      next = link_tail (update s.next this none) s.kept this;
      kept = push_tail s.kept this;
    }

unfoldable pub pass_loop : ℕ → (Ptr → Bool) → Option Ptr → Pass → Option Pass
unfolding pass_node
pass_loop zero in_pass current s = none
pass_loop (suc fuel) in_pass none s = some s
pass_loop (suc fuel) in_pass (some this) s =
    pass_loop fuel in_pass (s.next this) (pass_node in_pass this s)
