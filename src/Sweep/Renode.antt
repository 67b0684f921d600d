-- ===== src/Sweep/Renode.antt =====
-- Disposing of nodes has nothing to do with the list of nodes in the partition.
use gc_lite.Base.{
  ℕ, zero, suc, ◌+◌, ◌-◌, ◌≡◌, refl, ap, List, [], ◌∷◌, Option, some, ◌==◌, modify, arith,
  get_or-modify, Bool-cases, Option-cases, inl, inr,
}
use gc_lite.Base.Int.{ℤ, pos, negsuc, neg, as_i32}
use gc_lite.Node.{Ptr}
use gc_lite.Arena.{Hole, GcArena, collect_hole, finish_sweep}
use gc_lite.Heap.{GcHeap, partition_at, no_partition, modify_partition}
use gc_lite.Mark.{is_empty}
use gc_lite.Mem.{update_mem_use, dispose_mem_only, dispose_no_drop, gross_size, forget, clear_weak}
use gc_lite.Sweep.{
  Disposal, drop_pass, collect_node, dispose_node, dispose_pass, dispose_passes, finish_arena,
}

modify-modify {ℓ} :
    {A : Type ℓ} (xs : List A) (i : ℕ) (f g : A → A)
    → modify (modify xs i f) i g ≡ modify xs i (λ x. g (f x))
modify-modify [] i f g = refl
modify-modify (x ∷ xs) zero f g = refl
modify-modify (x ∷ xs) (suc i) f g = ap (λ ys. x ∷ ys) (modify-modify xs i f g)

modify-commute {ℓ} :
    {A : Type ℓ} (xs : List A) (i j : ℕ) (f g : A → A)
    → ((x : A) → g (f x) ≡ f (g x))
    → modify (modify xs i f) j g ≡ modify (modify xs j g) i f
modify-commute [] i j f g e = refl
modify-commute (x ∷ xs) zero zero f g e = ap (λ y. y ∷ xs) (e x)
modify-commute (x ∷ xs) zero (suc j) f g e = refl
modify-commute (x ∷ xs) (suc i) zero f g e = refl
modify-commute (x ∷ xs) (suc i) (suc j) f g e = ap (λ ys. x ∷ ys) (modify-commute xs i j f g e)

-- The partition's list of nodes is another one.
abbrev pub renode : ℕ → List Ptr → GcHeap → GcHeap
renode pid l h = modify_partition h pid (λ p. record p { nodes = l })

abbrev pub renode_all : ℕ → List Ptr → Disposal → Disposal
renode_all pid l d = record d { heap = renode pid l d.heap }

pub renode-renode :
    (pid : ℕ) (l m : List Ptr) (h : GcHeap) → renode pid l (renode pid m h) ≡ renode pid l h
renode-renode pid l m h =
    ap (λ ps. record h { partitions = ps })
      (modify-modify h.partitions pid (λ p. record p { nodes = m }) (λ p. record p { nodes = l }))

update_mem_use-renode :
    (pid id : ℕ) (l : List Ptr) (h : GcHeap) (z : ℤ)
    → update_mem_use (renode pid l h) id z ≡ renode pid l (update_mem_use h id z)
unfolding update_mem_use
update_mem_use-renode pid id l h (pos d) =
    ap (λ ps. record h { partitions = ps; total_memory_used = h.total_memory_used + d })
      (modify-commute h.partitions pid id (λ p. record p { nodes = l })
        (λ p. record p { memory_used = p.memory_used + d }) (λ p. refl))
update_mem_use-renode pid id l h (negsuc n) =
    ap (λ ps. record h { partitions = ps; total_memory_used = h.total_memory_used - suc n })
      (modify-commute h.partitions pid id (λ p. record p { nodes = l })
        (λ p. record p { memory_used = p.memory_used - suc n }) (λ p. refl))

arena-renode :
    (pid : ℕ) (l : List Ptr) (h : GcHeap)
    → (partition_at (renode pid l h) pid).arena ≡ (partition_at h pid).arena
arena-renode pid l h =
    ground (arith, get_or-modify h.partitions pid pid (λ p. record p { nodes = l }) no_partition)

set_arena-renode :
    (pid : ℕ) (l : List Ptr) (h : GcHeap) (a : Option GcArena)
    → modify_partition (renode pid l h) pid (λ p. record p { arena = a })
      ≡ renode pid l (modify_partition h pid (λ p. record p { arena = a }))
set_arena-renode pid l h a =
    ap (λ ps. record h { partitions = ps })
      (modify-commute h.partitions pid pid (λ p. record p { nodes = l })
        (λ p. record p { arena = a }) (λ p. refl))

collect_node-renode :
    (pid : ℕ) (l : List Ptr) (n : Ptr) (size : ℕ) (d : Disposal)
    → collect_node pid n size (renode_all pid l d) ≡ renode_all pid l (collect_node pid n size d)
unfolding collect_node
collect_node-renode pid l n size d = elim (Option-cases (partition_at d.heap pid).arena) [
  | inl none_ ↦ rw (arena-renode pid l d.heap, none_, collect_node) refl
  | inr (a, some_) ↦
      rw (arena-renode pid l d.heap, some_, collect_node)
        (ap (λ h. record d { heap = h; holes = (collect_hole a d.holes n size).1 })
          (set_arena-renode pid l d.heap (some (collect_hole a d.holes n size).0)))
]

dispose_no_drop-renode :
    (pid : ℕ) (l : List Ptr) (h : GcHeap) (n : Ptr)
    → dispose_no_drop (renode pid l h) n
      ≡ (renode pid l (dispose_no_drop h n).0, (dispose_no_drop h n).1)
unfolding dispose_no_drop dispose_mem_only
dispose_no_drop-renode pid l h n =
    ap (λ g. (g, gross_size h n))
      (update_mem_use-renode pid (h.mem n).partition_id l (forget (clear_weak h n) n)
        (neg (as_i32 (gross_size h n))))

pub dispose_node-renode :
    (pid : ℕ) (l : List Ptr) (n : Ptr) (d : Disposal)
    → dispose_node pid n (renode_all pid l d) ≡ renode_all pid l (dispose_node pid n d)
unfolding dispose_node
dispose_node-renode pid l n d =
    let r = dispose_no_drop d.heap n in
    let d' : Disposal = record d { heap = r.0; freed_bytes = d.freed_bytes + r.1 } in
    let e = dispose_no_drop-renode pid l d.heap n in
    elim (Bool-cases (d.heap.mem n).arena_alloc) [
      | inl in_arena ↦ rw (in_arena, e) (collect_node-renode pid l n (gross_size d.heap n) d')
      | inr outside ↦ rw (outside, e) refl
    ]

pub dispose_pass-renode :
    (pid pass : ℕ) (l ns : List Ptr) (d : Disposal)
    → dispose_pass pid pass ns (renode_all pid l d)
      ≡ ((dispose_pass pid pass ns d).0, renode_all pid l (dispose_pass pid pass ns d).1)
unfolding dispose_pass
dispose_pass-renode pid pass l [] d = refl
dispose_pass-renode pid pass l (n ∷ ns) d = elim (Bool-cases (drop_pass d.heap n == pass)) [
  | inl mine ↦
      rw
        (
          mine,
          dispose_node-renode pid l n d,
          dispose_pass-renode pid pass l ns (dispose_node pid n d),
        )
        refl
  | inr other ↦ rw (other, dispose_pass-renode pid pass l ns d) refl
]

pub dispose_passes-renode :
    (pid : ℕ) (passes : List ℕ) (l ns : List Ptr) (d : Disposal)
    → dispose_passes pid passes ns (renode_all pid l d)
      ≡ ((dispose_passes pid passes ns d).0, renode_all pid l (dispose_passes pid passes ns d).1)
unfolding dispose_passes
dispose_passes-renode pid [] l ns d = refl
dispose_passes-renode pid (pass ∷ passes) l ns d =
    let r = dispose_pass pid pass ns d in
    rw (dispose_pass-renode pid pass l ns d, dispose_passes-renode pid passes l r.0 r.1)
      (elim (Bool-cases (is_empty r.0)) [ inl done ↦ rw done refl | inr more ↦ rw more refl ])

pub finish_arena-renode :
    (pid : ℕ) (l : List Ptr) (holes : List Hole) (h : GcHeap)
    → finish_arena pid holes (renode pid l h) ≡ renode pid l (finish_arena pid holes h)
finish_arena-renode pid l holes h = elim (Option-cases (partition_at h pid).arena) [
  | inl none_ ↦ rw (arena-renode pid l h, none_, finish_arena) refl
  | inr (a, some_) ↦
      rw (arena-renode pid l h, some_, finish_arena)
        (set_arena-renode pid l h (some (finish_sweep a holes)))
]

-- Headers and types stay.
pub mem-dispose_node :
    (pid : ℕ) (n : Ptr) (d : Disposal)
    → ((dispose_node pid n d).heap.mem ≡ d.heap.mem)
      × ((dispose_node pid n d).heap.node_dtypes ≡ d.heap.node_dtypes)
unfolding dispose_node dispose_no_drop dispose_mem_only collect_node
mem-dispose_node pid n d = ground arith
