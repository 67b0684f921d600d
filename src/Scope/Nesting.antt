-- ===== src/Scope/Nesting.antt =====
-- Clearing a scope takes its protection away; the top of a scope stack.
use gc_lite.Base.{
  ℕ, zero, suc, ◌≡◌, ◌<◌, refl, ap, false, not, ◌&&◌, List, [], ◌∷◌, arith, contains, length,
  ==_iff, none, get_or, modify,
}
use gc_lite.Node.{Ptr, GcHead}
use gc_lite.Heap.{GcHeap, GcScopeState, ScopeStack}
use gc_lite.Scope.{set_local, cached, unprotect, clear}

-- The header of `q` after the nodes `ns` lost their protection.
abbrev pub unlocal_head : List Ptr → Ptr → GcHead → GcHead
unlocal_head ns q n = record n { local = n.local && not (contains ns q) }

unprotect-mem :
    (ns : List Ptr) (h : GcHeap) (q : Ptr) → (unprotect ns h).mem q ≡ unlocal_head ns q (h.mem q)
unfolding unprotect set_local
unprotect-mem [] h q = ground arith
unprotect-mem (n ∷ ns) h q = ground (arith, unprotect-mem ns (set_local h n false) q, ==_iff n q)

unprotect-rest :
    (ns : List Ptr) (h : GcHeap)
    → ((unprotect ns h).partitions ≡ h.partitions)
      × ((unprotect ns h).scope_stacks ≡ h.scope_stacks)
      × ((unprotect ns h).weak_slots ≡ h.weak_slots)
unfolding unprotect set_local
unprotect-rest [] h = (refl, refl, refl)
unprotect-rest (n ∷ ns) h = unprotect-rest ns (set_local h n false)

pub modify-modify :
    {A : Type 0} (xs : List A) (i : ℕ) (f g : A → A)
    → ((x : A) → g (f x) ≡ x)
    → modify (modify xs i f) i g ≡ xs
modify-modify [] i f g back = refl
modify-modify (x ∷ xs) zero f g back = ap (λ y. y ∷ xs) (back x)
modify-modify (x ∷ xs) (suc i) f g back = ap (λ ys. x ∷ ys) (modify-modify xs i f g back)

pub get_or-modify_some :
    {A : Type 0} (xs : List A) (i : ℕ) (f : A → A) (d : A)
    → i < length xs
    → get_or (modify xs i f) i d ≡ f (get_or xs i d)
get_or-modify_some [] i f d lt = absurd (omega arith)
get_or-modify_some (x ∷ xs) zero f d lt = refl
get_or-modify_some (x ∷ xs) (suc i) f d lt = get_or-modify_some xs i f d (omega arith)

abbrev pub opened : ℕ → ℕ → ℕ → GcScopeState
opened pid id depth = record { partition_id = pid; stack_id = id; depth = depth; cache = none }

abbrev pub push_scope : GcScopeState → ScopeStack → ScopeStack
push_scope s k = record k { list = s ∷ k.list }

-- A scope's `clear` takes the protection from the nodes of its cache and from no other node, changes
-- nothing else in any header, in the partitions, the stacks or the weak slots, and empties the cache.
pub clear_lem :
    (h : GcHeap) (s : GcScopeState)
    → ((q : Ptr) → (clear h s).0.mem q ≡ unlocal_head (cached s) q (h.mem q))
      × ((clear h s).0.partitions ≡ h.partitions)
      × ((clear h s).0.scope_stacks ≡ h.scope_stacks)
      × ((clear h s).0.weak_slots ≡ h.weak_slots)
      × ((clear h s).1.cache ≡ none)
unfolding clear
clear_lem h s =
    let (p, t, w) = unprotect-rest (cached s) h in
    (λ q. unprotect-mem (cached s) h q, p, t, w, refl)
