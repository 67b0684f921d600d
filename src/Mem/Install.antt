-- ===== src/Mem/Install.antt =====
-- What a successful allocation writes, address by address.
use gc_lite.Base.{
  ℕ, suc, ◌+◌, ◌^◌, ◌-◌, ◌≡◌, ◌≢◌, ◌<◌, refl, ◌∙◌, ap, Bool, true, false, ◌&&◌, List, ◌∷◌, arith,
  ◌==◌, if◌then◌else◌, length, ==_iff, Bool-cases, inl, inr, ltb, leb, Option, some, none,
  get_or-modify, length-modify, subst,
}
use gc_lite.Base.Int.{ℤ, pos, negsuc, as_i32}
use gc_lite.Node.{white, GcHead, Ptr}
use gc_lite.Gctype.{GcTypeInfo, type_info}
use gc_lite.Arena.{GcArena}
use gc_lite.Heap.{GcPartition, GcHeap, partition_at, modify_partition, no_partition}
use gc_lite.Mem.{
  GcError, GcResult, ok, err, update_mem_use, fresh_head, install, try_arena, alloc_node_mem,
  map_ok,
}

-- Partitions alike in what marking reads.
pub record SameChain (p q : GcPartition) : Type 0 where
  pub nodes : q.nodes ≡ p.nodes
  pub marking : q.marking ≡ p.marking
  pub gray_list : q.gray_list ≡ p.gray_list

-- `p` is a new white node of partition `pid` that refers to `refs`, in no chain yet.
pub record Installed (h : GcHeap) (pid : ℕ) (refs : List Ptr) (size : ℕ) (p : Ptr) (g : GcHeap)
    : Type 0 where
  pub range : pid < length h.partitions
  pub count : length g.partitions ≡ length h.partitions
  pub color : (g.mem p).color ≡ white
  pub unlisted : (g.mem p).gray_listed ≡ false
  pub partition_id : (g.mem p).partition_id ≡ pid
  pub unrooted : ((g.mem p).root ≡ false) × ((g.mem p).local ≡ false)
  pub others : (q : Ptr) → q ≢ p → g.mem q ≡ h.mem q
  pub refs_eq : g.payload p ≡ refs
  pub payloads : (q : Ptr) → q ≢ p → g.payload q ≡ h.payload q
  pub total : size < 2 ^ 31 → g.total_memory_used ≡ h.total_memory_used + size
  pub pars : (j : ℕ) → SameChain (partition_at h j) (partition_at g j)

update_mem_use-SameChain :
    (h : GcHeap) (i : ℕ) (d : ℤ) (j : ℕ)
    → SameChain (partition_at h j) (partition_at (update_mem_use h i d) j)
unfolding update_mem_use
update_mem_use-SameChain h i (pos d) j = ground (
  arith,
  get_or-modify h.partitions i j (λ p. record p { memory_used = p.memory_used + d }) no_partition,
)
update_mem_use-SameChain h i (negsuc d) j = ground (
  arith,
  get_or-modify h.partitions i j (λ p. record p { memory_used = p.memory_used - suc d })
      no_partition,
)

as_i32-pos : (n : ℕ) → n < 2 ^ 31 → as_i32 n ≡ pos n
as_i32-pos n lt = ground arith

total_pos :
    (h : GcHeap) (i d : ℕ)
    → (update_mem_use h i (pos d)).total_memory_used ≡ h.total_memory_used + d
unfolding update_mem_use
total_pos h i d = refl

update_mem_use-total :
    (h : GcHeap) (i size : ℕ)
    → size < 2 ^ 31
    → (update_mem_use h i (as_i32 size)).total_memory_used ≡ h.total_memory_used + size
update_mem_use-total h i size small = rw (as_i32-pos size small) (total_pos h i size)

update_mem_use-same :
    (h : GcHeap) (i : ℕ) (d : ℤ)
    → ((update_mem_use h i d).mem ≡ h.mem)
      × ((update_mem_use h i d).payload ≡ h.payload)
      × (length (update_mem_use h i d).partitions ≡ length h.partitions)
unfolding update_mem_use
update_mem_use-same h i (pos d) = (refl, refl, length-modify h.partitions i _)
update_mem_use-same h i (negsuc d) = (refl, refl, length-modify h.partitions i _)

Installed-install :
    (h : GcHeap) (pid dtype : ℕ) (refs : List Ptr) (in_arena : Bool) (size : ℕ) (p : Ptr)
    → pid < length h.partitions
    → Installed h pid refs size p (install h pid dtype refs in_arena size p)
unfolding install fresh_head
Installed-install h pid dtype refs in_arena size p lt =
    let h2 : GcHeap = record h {
      mem = λ q. if p == q then fresh_head dtype pid in_arena else h.mem q;
      payload = λ q. if p == q then refs else h.payload q;
      dbg_living_nodes = p ∷ h.dbg_living_nodes;
    } in
    let (m, l, c) = update_mem_use-same h2 pid (as_i32 size) in
    let at = λ (q : Ptr). ap (λ (f : Ptr → GcHead). f q) m in
    let pay = λ (q : Ptr). ap (λ (f : Ptr → List Ptr). f q) l in
    let same : p == p ≡ true = ground (arith, ==_iff p p) in
    record {
      range = lt;
      count = c;
      color = rw (at p) (rw same refl);
      unlisted = rw (at p) (rw same refl);
      partition_id = rw (at p) (rw same refl);
      unrooted = rw (at p) (rw same (refl, refl));
      others = λ q ne. at q ∙ ground (arith, ==_iff p q);
      refs_eq = pay p ∙ rw same refl;
      payloads = λ q ne. pay q ∙ ground (arith, ==_iff p q);
      total = λ small. update_mem_use-total h2 pid size small;
      pars = λ j. update_mem_use-SameChain h2 pid (as_i32 size) j;
    }

Installed-arena :
    {h : GcHeap} (pid : ℕ) (a : Option GcArena) {i : ℕ} {refs : List Ptr} {size : ℕ} {p : Ptr}
    {g : GcHeap}
    → Installed (modify_partition h pid (λ par. record par { arena = a })) i refs size p g
    → Installed h i refs size p g
Installed-arena {h} pid a v =
    let with_arena = λ (par : GcPartition). record par { arena = a } in
    let count = length-modify h.partitions pid with_arena in
    record {
      range = omega (arith, v.range, count);
      count = v.count ∙ count;
      color = v.color;
      unlisted = v.unlisted;
      partition_id = v.partition_id;
      unrooted = v.unrooted;
      others = v.others;
      refs_eq = v.refs_eq;
      payloads = v.payloads;
      total = v.total;
      pars =
          λ j. ground (arith, v.pars j, get_or-modify h.partitions pid j with_arena no_partition);
    }

pub ok-eq : {A : Type 0} {x y : A} → ok x ≡ ok y → x ≡ y
ok-eq e = cc

-- The last step: from the arena, or from the system.
found : Option Ptr → GcHeap → ℕ → ℕ → List Ptr → ℕ → Option (ℕ × GcArena) → GcResult (GcHeap × Ptr)
found malloc h pid dtype refs size (some (p, a)) = ok (
  install (modify_partition h pid (λ par. record par { arena = some a })) pid dtype refs true size
      p,
  p,
)
found none h pid dtype refs size none = err GcError.allocation_failed
found (some p) h pid dtype refs size none = ok (install h pid dtype refs false size p, p)

Installed-found :
    (malloc : Option Ptr) (h : GcHeap) (pid dtype : ℕ) (refs : List Ptr) (size : ℕ)
    (o : Option (ℕ × GcArena)) (g : GcHeap) (p : Ptr)
    → pid < length h.partitions
    → found malloc h pid dtype refs size o ≡ ok (g, p)
    → Installed h pid refs size p g
unfolding found
Installed-found malloc h pid dtype refs size (some (q, a)) g p lt e =
    let h' = modify_partition h pid (λ par. record par { arena = some a }) in
    let k = install h' pid dtype refs true size q in
    subst (λ (r : GcHeap × Ptr). Installed h pid refs size r.1 r.0) (ok-eq e)
      (Installed-arena pid (some a) (
        Installed-install h' pid dtype refs true size q
          (omega (arith, length-modify h.partitions pid (λ par. record par { arena = some a })))))
Installed-found none h pid dtype refs size none g p lt e = cc
Installed-found (some q) h pid dtype refs size none g p lt e =
    subst (λ (r : GcHeap × Ptr). Installed h pid refs size r.1 r.0) (ok-eq e)
      (Installed-install h pid dtype refs false size q lt)

found-eq :
    (malloc : Option Ptr) (h : GcHeap) (pid dtype : ℕ) (refs : List Ptr) (size : ℕ)
    (o : Option (ℕ × GcArena))
    → found malloc h pid dtype refs size o ≡ (elim o [
      | some (p, a) ↦
          let h' = modify_partition h pid (λ par. record par { arena = some a }) in
          ok (install h' pid dtype refs true size p, p)
      | none ↦ elim malloc [
        | none ↦ err GcError.allocation_failed
        | some p ↦ ok (install h pid dtype refs false size p, p)
      ]
    ])
unfolding found
found-eq malloc h pid dtype refs size (some (p, a)) = refl
found-eq none h pid dtype refs size none = refl
found-eq (some p) h pid dtype refs size none = refl

-- The cases of a successful allocation.
pub alloc_node_mem-Installed :
    (malloc : Option Ptr) (layout_ok : GcTypeInfo → Bool) (h : GcHeap) (pid dtype : ℕ)
    (refs : List Ptr) (skip : Bool) (g : GcHeap) (p : Ptr)
    → alloc_node_mem malloc layout_ok h pid dtype refs skip ≡ ok (g, p)
    → Installed h pid refs (type_info h.node_dtypes dtype).layout_size p g
unfolding alloc_node_mem
alloc_node_mem-Installed malloc layout_ok h pid dtype refs skip g p e =
    let info = type_info h.node_dtypes dtype in
    elim (Bool-cases (leb (length h.partitions) pid)) [
      | inl past ↦ cc (rw past at e)
      | inr in_range ↦ elim (Bool-cases (layout_ok info)) [
        | inr bad ↦ cc (rw (in_range, bad) at e)
        | inl good ↦
            elim (Bool-cases (
              ltb 0 h.memory_limit
              && ltb h.memory_limit (h.total_memory_used + info.layout_size))) [
                | inl full ↦ cc (rw (in_range, good, full) at e)
                | inr room ↦
                    Installed-found malloc h pid dtype refs info.layout_size
                      (try_arena (partition_at h pid) skip info.layout_size info.layout_align) g p
                      (ground arith)
                      (found-eq malloc h pid dtype refs info.layout_size
                          (try_arena (partition_at h pid) skip info.layout_size info.layout_align)
                        ∙ (rw (in_range, good, room) at e))
              ]
      ]
    ]

-- A mapped result that is a success.
pub map_ok-ok :
    {A B : Type 0} (f : A → B) (r : GcResult A) (y : B)
    → map_ok f r ≡ ok y
    → (x : A) × (r ≡ ok x) × (f x ≡ y)
map_ok-ok f (ok x) y e = (x, refl, ok-eq e)
map_ok-ok f (err x) y e = cc
