-- ===== src/Weak.antt =====
-- Weak references (src/weak.rs): slots with a version each, and ids that name a slot and a version.
pub mod Slots
pub mod Handles
pub mod Downgrade
pub mod Versions
use gc_lite.Base.{
  ℕ, suc, ◌+◌, ◌-◌, ◌*◌, ◌/◌, ◌%◌, ◌^◌, Bool, true, false, List, [], ◌∷◌, ◌++◌, Option, none, some,
  leb, ◌==◌, if◌then◌else◌, length, get_elem?, get_or, set,
}
use gc_lite.Node.{Ptr}
use gc_lite.Heap.{GcHeap, write_head}

-- `GcWeakRawId`: index in bits 8 to 31, version in bits 0 to 7.
abbrev pub null_weak : ℕ
null_weak = 0

unfoldable pub index : ℕ → ℕ
index id = id / 2 ^ 8

unfoldable pub version : ℕ → ℕ
version id = id % 2 ^ 8

unfoldable pub is_null : ℕ → Bool
unfolding version
is_null id = version id == 0

-- `(index << 8) | version` on `u32`; the parts do not overlap, so the `|` is a sum.
unfoldable pub new_weak : (index version : ℕ) → ℕ
new_weak index version = (index * 2 ^ 8) % 2 ^ 32 + version

abbrev pub free_slot : ℕ × Option Ptr → Bool
free_slot (v, none) = true
free_slot (v, some p) = false

-- `position`: the first free slot, or the length.
unfoldable pub find_free : List (ℕ × Option Ptr) → ℕ
find_free [] = 0
find_free (slot ∷ rest) = let later = suc (find_free rest) in if free_slot slot then 0 else later

abbrev pub no_slot : ℕ × Option Ptr
no_slot = (0, none)

unfoldable pub next_version : ℕ → ℕ
next_version v = if v == 255 then 1 else v + 1

-- Taking slot `i` for a node, behind a push of an empty slot where none is free.
unfoldable pub take_slot : GcHeap → Ptr → GcHeap × ℕ
unfolding find_free next_version new_weak
take_slot h node =
    let i = find_free h.weak_slots in
    let slots = if i == length h.weak_slots then h.weak_slots ++ no_slot ∷ [] else h.weak_slots in
    let v = next_version (get_or slots i no_slot).0 in
    let id = new_weak i v in
    let h' = record h { weak_slots = set slots i (v, some node) } in
    (write_head h' node (record (h'.mem node) { weak_id = id }), id)

-- `none` is the panic "too many weakrefs".
unfoldable pub downgrade : GcHeap → Ptr → Option (GcHeap × ℕ)
unfolding is_null take_slot
downgrade h node =
    if is_null (h.mem node).weak_id
    then (if leb (2 ^ 24 - 1) (length h.weak_slots) then none else some (take_slot h node))
    else some (h, (h.mem node).weak_id)

-- The closure of `and_then`: the node, where the version is still the slot's.
unfoldable pub read_slot : ℕ → Option (ℕ × Option Ptr) → Option Ptr
read_slot ver none = none
read_slot ver (some (v, node)) = if v == ver then node else none

unfoldable pub upgrade : GcHeap → ℕ → Option Ptr
unfolding is_null index version read_slot
upgrade h id =
    if is_null id then none else read_slot (version id) (get_elem? h.weak_slots (index id))

-- `self.weak_slots[i].1.set(None)`
abbrev pub clear_slot : List (ℕ × Option Ptr) → ℕ → List (ℕ × Option Ptr)
clear_slot slots i = set slots i ((get_or slots i no_slot).0, none)
