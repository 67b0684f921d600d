-- ===== src/Sweep/Dispose.antt =====
-- Disposing of one node, with its place in the arena, and of a list of nodes.
use gc_lite.Base.{
  ℕ, zero, suc, ◌+◌, ◌≤◌, ◌<◌, ◌^◌, ◌≡◌, refl, ◌∙◌, Bool, true, false, not, ◌&&◌, ◌||◌, List, [],
  ◌∷◌, ◌++◌, arith, ◌==◌, ==_iff, Bool-cases, Option-cases, inl, inr, length, get_or-modify, Option,
  none, some, get_elem?, get_elem?-set, get_or,
}
use gc_lite.Node.{GcHead, Ptr}
use gc_lite.Gctype.{GcTypeRegistry, type_info}
use gc_lite.Arena.{GcArena}
use gc_lite.Heap.{GcPartition, GcHeap, partition_at, no_partition, modify_partition}
use gc_lite.Weak.{is_null, index, clear_slot, no_slot, free_slot}
use gc_lite.Mem.{dispose_no_drop, gross_size}
use gc_lite.Sweep.{Disposal, collect_node, dispose_node}
use gc_lite.Sweep.Books.{Kept-refl, Kept-trans, Kept-modify, Less, emptied, dispose_no_drop-Less}

-- The arena's part.
pub Less-arena :
    {pid size : ℕ} {h g : GcHeap} (a : Option GcArena)
    → Less pid size h g
    → Less pid size h (modify_partition g pid (λ p. record p { arena = a }))
Less-arena {pid} {g} a l =
    let f : GcPartition → GcPartition = λ p. record p { arena = a } in
    let at = λ (j : ℕ). get_or-modify g.partitions pid j f no_partition in
    record {
      kept = Kept-trans l.kept (Kept-modify g pid f (λ p. (refl, refl, refl)));
      books = record {
        used = ground (arith, at pid, l.books.used);
        others = λ j ne. ground (arith, at j, l.books.others j);
        total = l.books.total;
      };
    }

-- One step of `sweep_dispose`.
pub record Disposed (pid size : ℕ) (d e : Disposal) : Type 0 where
  pub less : Less pid size d.heap e.heap
  pub freed : e.freed_bytes ≡ d.freed_bytes + size

collect_node-Disposed :
    (pid size m : ℕ) (n : Ptr) (d e : Disposal)
    → Disposed pid size d e
    → Disposed pid size d (collect_node pid n m e)
      × ((collect_node pid n m e).heap.weak_slots ≡ e.heap.weak_slots)
unfolding collect_node
collect_node-Disposed pid size m n d e s = elim (Option-cases (partition_at e.heap pid).arena) [
  | inl none_ ↦ rw (none_, collect_node) (s, refl)
  | inr (a, some_) ↦
      rw (some_, collect_node) (record { less = Less-arena _ s.less; freed = s.freed }, refl)
]

-- Whether slot `i` holds no node.
abbrev pub slot_free : Option (ℕ × Option Ptr) → Bool
slot_free none = true
slot_free (some slot) = free_slot slot

-- Whether the node's weak id names slot `i`.
abbrev pub hits : (Ptr → GcHead) → Ptr → ℕ → Bool
hits mem n i = not (is_null (mem n).weak_id) && index (mem n).weak_id == i

get_or-get_elem? :
    (slots : List (ℕ × Option Ptr)) (i : ℕ) → slot_free (get_elem? (clear_slot slots i) i) ≡ true
get_or-get_elem? [] i = refl
get_or-get_elem? (x ∷ slots) zero = refl
get_or-get_elem? (x ∷ slots) (suc i) = get_or-get_elem? slots i

slot_free-clear_slot :
    (slots : List (ℕ × Option Ptr)) (i j : ℕ)
    → slot_free (get_elem? (clear_slot slots i) j) ≡ (i == j || slot_free (get_elem? slots j))
slot_free-clear_slot slots i j = ground (
  arith,
  get_or-get_elem? slots i,
  get_elem?-set slots i j ((get_or slots i no_slot).0, none),
  ==_iff i j,
)

abbrev pub slot_free_at : GcHeap → ℕ → Bool
slot_free_at h i = slot_free (get_elem? h.weak_slots i)

pub slot_free-emptied :
    (h : GcHeap) (n : Ptr) (j : ℕ)
    → slot_free (get_elem? (emptied h n) j) ≡ (hits h.mem n j || slot_free_at h j)
slot_free-emptied h n j =
    ground (arith, slot_free-clear_slot h.weak_slots (index (h.mem n).weak_id) j)

-- The bytes of a list of nodes.
unfoldable pub total_size : GcTypeRegistry → (Ptr → GcHead) → List Ptr → ℕ
total_size types mem [] = 0
total_size types mem (n ∷ rest) =
    (type_info types (mem n).dtype).layout_size + total_size types mem rest

unfoldable pub any_hits : (Ptr → GcHead) → List Ptr → ℕ → Bool
any_hits mem [] i = false
any_hits mem (n ∷ rest) i = hits mem n i || any_hits mem rest i

-- Nodes of the partition, each small enough for its size to be an `i32`.
abbrev pub Charged : GcTypeRegistry → (Ptr → GcHead) → ℕ → List Ptr → Type 0
Charged types mem pid [] = Unit {0}
Charged types mem pid (n ∷ rest) =
    ((mem n).partition_id ≡ pid)
    × ((type_info types (mem n).dtype).layout_size < 2 ^ 31)
    × Charged types mem pid rest

-- A list of nodes disposed of, `size` bytes in all.
pub record Swept (pid size : ℕ) (ns : List Ptr) (d e : Disposal) : Type 0 where
  pub less : Less pid size d.heap e.heap
  pub freed : e.freed_bytes ≡ d.freed_bytes + size
  pub slots : (i : ℕ) → slot_free_at e.heap i ≡ (slot_free_at d.heap i || any_hits d.heap.mem ns i)

pub Swept-node :
    (pid : ℕ) (n : Ptr) (d : Disposal)
    → (d.heap.mem n).partition_id ≡ pid
    → gross_size d.heap n < 2 ^ 31
    → pid < length d.heap.partitions
    → gross_size d.heap n ≤ (partition_at d.heap pid).memory_used
    → gross_size d.heap n ≤ d.heap.total_memory_used
    → Swept pid (gross_size d.heap n) (n ∷ []) d (dispose_node pid n d)
unfolding dispose_node any_hits
Swept-node pid n d own small range le le' =
    let (l, w, size) = dispose_no_drop-Less d.heap pid n own small range le le' in
    let e : Disposal = record d {
      heap = (dispose_no_drop d.heap n).0;
      freed_bytes = d.freed_bytes + (dispose_no_drop d.heap n).1;
    } in
    let plain : Disposed pid (gross_size d.heap n) d e = record {
      less = l;
      freed = omega (arith, size);
    } in
    let (c, w') =
      collect_node-Disposed pid (gross_size d.heap n) (gross_size d.heap n) n d e plain in
    elim (Bool-cases (d.heap.mem n).arena_alloc) [
      | inl in_arena ↦ rw in_arena (record {
        less = c.less;
        freed = c.freed;
        slots = λ i. rw (w', w) (ground (arith, slot_free-emptied d.heap n i));
      })
      | inr outside ↦ rw outside (record {
        less = plain.less;
        freed = plain.freed;
        slots = λ i. rw w (ground (arith, slot_free-emptied d.heap n i));
      })
    ]

pub Swept-none : (pid : ℕ) (d : Disposal) → Swept pid 0 [] d d
unfolding any_hits
Swept-none pid d = record {
  less = record {
    kept = Kept-refl d.heap;
    books = record { used = omega arith; others = λ j ne. refl; total = omega arith };
  };
  freed = omega arith;
  slots = λ i. ground arith;
}

pub any_hits-append :
    (mem : Ptr → GcHead) (ns ms : List Ptr) (i : ℕ)
    → any_hits mem (ns ++ ms) i ≡ (any_hits mem ns i || any_hits mem ms i)
unfolding any_hits
any_hits-append mem [] ms i = refl
any_hits-append mem (n ∷ ns) ms i = ground (arith, any_hits-append mem ns ms i)

pub Swept-trans :
    {pid a b : ℕ} {ns ms : List Ptr} {d e f : Disposal} (c : ℕ)
    → c ≡ a + b
    → Swept pid a ns d e
    → Swept pid b ms e f
    → Swept pid c (ns ++ ms) d f
Swept-trans {ns} {ms} {d} c sum s t = record {
  less = record {
    kept = Kept-trans s.less.kept t.less.kept;
    books = record {
      used = omega (arith, s.less.books.used, t.less.books.used);
      others = λ j ne. t.less.books.others j ne ∙ s.less.books.others j ne;
      total = omega (arith, s.less.books.total, t.less.books.total);
    };
  };
  freed = omega (arith, s.freed, t.freed);
  slots = λ i.
      rw (any_hits-append d.heap.mem ns ms i)
        (ground (arith, s.slots i, rw s.less.kept.mem at (t.slots i)));
}
