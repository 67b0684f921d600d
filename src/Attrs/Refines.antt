-- ===== src/Attrs/Refines.antt =====
-- The packed header against its parts: a sequence of the methods on the word is the same sequence of
-- assignments to the parts.
use gc_lite.Base.{
  ℕ, ◌<◌, Bool, true, false, ◌==◌, List, [], ◌∷◌, some, ◌≡◌, sym, ap, ◌∙◌, if◌then◌else◌, arith,
}
use gc_lite.Node.{GcTriColor, GcHead}
use gc_lite.Mem.{fresh_head}
use gc_lite.Attrs.{
  GcNodeFlag, dtype, color, set_color, insert_flag, remove_flag, contains_flag, clear_local_flag,
  set_traverse_visited, is_gray_listed, set_gray_listed, fresh_attrs,
}
use gc_lite.Attrs.Digits.{
  pos, contains_flag-insert_flag, color-insert_flag, dtype-insert_flag, contains_flag-remove_flag,
  color-remove_flag, dtype-remove_flag, contains_flag-set_color, color-set_color, dtype-set_color,
  dtype-fresh_attrs, contains_flag-fresh_attrs, color-fresh_attrs, is_gray_listed-contains_flag,
}

-- The flag of a header.
unfoldable pub flag : GcNodeFlag → GcHead → Bool
flag GcNodeFlag.arena_alloc n = n.arena_alloc
flag GcNodeFlag.gray_listed n = n.gray_listed
flag GcNodeFlag.root n = n.root
flag GcNodeFlag.local n = n.local
flag GcNodeFlag.traverse_visited n = n.traverse_visited

unfoldable pub assign : GcNodeFlag → Bool → GcHead → GcHead
assign GcNodeFlag.arena_alloc b n = record n { arena_alloc = b }
assign GcNodeFlag.gray_listed b n = record n { gray_listed = b }
assign GcNodeFlag.root b n = record n { root = b }
assign GcNodeFlag.local b n = record n { local = b }
assign GcNodeFlag.traverse_visited b n = record n { traverse_visited = b }

-- The word shows the color, the type and the flags of the header.
pub record IsPacked (attrs : ℕ) (n : GcHead) : Type 0 where
  pub colored : color attrs ≡ some n.color
  pub typed : dtype attrs ≡ n.dtype
  pub flagged : (f : GcNodeFlag) → contains_flag f attrs ≡ flag f n

-- The methods that write the word.
pub data Write : Type 0 where
  color_to : GcTriColor → Write
  insert remove : GcNodeFlag → Write
  gray_listed_to visited_to : Bool → Write
  clear_local : Write

unfoldable pub write : Write → ℕ → ℕ
unfolding set_gray_listed set_traverse_visited clear_local_flag
write (Write.color_to c) attrs = set_color c attrs
write (Write.insert f) attrs = insert_flag f attrs
write (Write.remove f) attrs = remove_flag f attrs
write (Write.gray_listed_to b) attrs = set_gray_listed b attrs
write (Write.visited_to b) attrs = set_traverse_visited b attrs
write Write.clear_local attrs = clear_local_flag attrs

unfoldable pub writes : List Write → ℕ → ℕ
unfolding write
writes [] attrs = attrs
writes (w ∷ ws) attrs = writes ws (write w attrs)

-- What each of them means.
unfoldable pub effect : Write → GcHead → GcHead
unfolding assign
effect (Write.color_to c) n = record n { color = c }
effect (Write.insert f) n = assign f true n
effect (Write.remove f) n = assign f false n
effect (Write.gray_listed_to b) n = record n { gray_listed = b }
effect (Write.visited_to b) n = record n { traverse_visited = b }
effect Write.clear_local n = record n { local = false }

unfoldable pub effects : List Write → GcHead → GcHead
unfolding effect
effects [] n = n
effects (w ∷ ws) n = effects ws (effect w n)

flag-assign :
    (g f : GcNodeFlag) (b : Bool) (n : GcHead)
    → flag g (assign f b n) ≡ (if pos g == pos f then b else flag g n)
unfolding flag assign pos
flag-assign g f b n = grind arith

color-assign : (f : GcNodeFlag) (b : Bool) (n : GcHead) → (assign f b n).color ≡ n.color
unfolding assign
color-assign f b n = grind arith

dtype-assign : (f : GcNodeFlag) (b : Bool) (n : GcHead) → (assign f b n).dtype ≡ n.dtype
unfolding assign
dtype-assign f b n = grind arith

insert-IsPacked :
    (f : GcNodeFlag) (w : ℕ) (n : GcHead)
    → IsPacked w n
    → IsPacked (insert_flag f w) (assign f true n)
insert-IsPacked f w n p = record {
  colored = color-insert_flag f w ∙ (p.colored ∙ ap some (sym (color-assign f true n)));
  typed = dtype-insert_flag f w ∙ (p.typed ∙ sym (dtype-assign f true n));
  flagged =
      λ g. ground (arith, contains_flag-insert_flag g f w, p.flagged g, flag-assign g f true n);
}

remove-IsPacked :
    (f : GcNodeFlag) (w : ℕ) (n : GcHead)
    → IsPacked w n
    → IsPacked (remove_flag f w) (assign f false n)
remove-IsPacked f w n p = record {
  colored = color-remove_flag f w ∙ (p.colored ∙ ap some (sym (color-assign f false n)));
  typed = dtype-remove_flag f w ∙ (p.typed ∙ sym (dtype-assign f false n));
  flagged =
      λ g. ground (arith, contains_flag-remove_flag g f w, p.flagged g, flag-assign g f false n);
}

flag-color :
    (g : GcNodeFlag) (c : GcTriColor) (n : GcHead) → flag g n ≡ flag g (record n { color = c })
unfolding flag
flag-color g c n = grind arith

write-IsPacked : (o : Write) (w : ℕ) (n : GcHead) → IsPacked w n → IsPacked (write o w) (effect o n)
unfolding write effect set_gray_listed set_traverse_visited clear_local_flag assign flag insert_flag
    remove_flag
write-IsPacked (Write.color_to c) w n p = record {
  colored = color-set_color c w;
  typed = dtype-set_color c w ∙ p.typed;
  flagged = λ g. contains_flag-set_color g c w ∙ (p.flagged g ∙ flag-color g c n);
}
write-IsPacked (Write.insert f) w n p = insert-IsPacked f w n p
write-IsPacked (Write.remove f) w n p = remove-IsPacked f w n p
write-IsPacked (Write.gray_listed_to true) w n p = insert-IsPacked GcNodeFlag.gray_listed w n p
write-IsPacked (Write.gray_listed_to false) w n p = remove-IsPacked GcNodeFlag.gray_listed w n p
write-IsPacked (Write.visited_to true) w n p = insert-IsPacked GcNodeFlag.traverse_visited w n p
write-IsPacked (Write.visited_to false) w n p = remove-IsPacked GcNodeFlag.traverse_visited w n p
write-IsPacked Write.clear_local w n p = remove-IsPacked GcNodeFlag.local w n p

writes-keep :
    (os : List Write) (w : ℕ) (n : GcHead) → IsPacked w n → IsPacked (writes os w) (effects os n)
unfolding writes effects
writes-keep [] w n p = p
writes-keep (o ∷ os) w n p = writes-keep os (write o w) (effect o n) (write-IsPacked o w n p)

flag-fresh : (g : GcNodeFlag) (d pid : ℕ) → false ≡ flag g (fresh_head d pid false)
unfolding flag fresh_head
flag-fresh g d pid = grind arith

fresh_plain : (d pid : ℕ) → d < 256 → IsPacked (fresh_attrs d false) (fresh_head d pid false)
unfolding fresh_head
fresh_plain d pid lt = record {
  colored = color-fresh_attrs d;
  typed = dtype-fresh_attrs d lt;
  flagged = λ g. contains_flag-fresh_attrs g d ∙ flag-fresh g d pid;
}

fresh-IsPacked :
    (d pid : ℕ) (arena : Bool) → d < 256 → IsPacked (fresh_attrs d arena) (fresh_head d pid arena)
unfolding fresh_attrs fresh_head assign insert_flag
fresh-IsPacked d pid false lt = fresh_plain d pid lt
fresh-IsPacked d pid true lt =
    insert-IsPacked GcNodeFlag.arena_alloc (fresh_attrs d false) (fresh_head d pid false)
      (fresh_plain d pid lt)

is_gray_listed-flag : (w : ℕ) (n : GcHead) → IsPacked w n → is_gray_listed w ≡ n.gray_listed
unfolding flag
is_gray_listed-flag w n p = is_gray_listed-contains_flag w ∙ p.flagged GcNodeFlag.gray_listed

-- Take the word that allocation writes for a type id below 256, and any sequence of the methods that
-- write it: color, flags, gray-listed and visited marks, and the removal of the local flag. The word
-- then reads as the header that the same sequence of assignments to the parts gives: its color, which
-- is never the error on which `color` panics, its type id and each of its flags. `is_gray_listed`,
-- which tests the bit another way, reads the same flag.
pub writes-IsPacked :
    (os : List Write) (d pid : ℕ) (arena : Bool)
    → d < 256
    → IsPacked (writes os (fresh_attrs d arena)) (effects os (fresh_head d pid arena))
      × (is_gray_listed (writes os (fresh_attrs d arena))
          ≡ (effects os (fresh_head d pid arena)).gray_listed)
writes-IsPacked os d pid arena lt =
    let w = writes os (fresh_attrs d arena) in
    let n = effects os (fresh_head d pid arena) in
    let packed : IsPacked w n =
      writes-keep os (fresh_attrs d arena) (fresh_head d pid arena)
        (fresh-IsPacked d pid arena lt) in
    (packed, is_gray_listed-flag w n packed)
