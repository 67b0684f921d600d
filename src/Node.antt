-- ===== src/Node.antt =====
-- The header of a node (src/node.rs). The packed word `attrs` is shown by its parts: data type id,
-- color and flags. The link to the next node of the partition is the business of the list that the
-- partition keeps, and the payload is a value of the user's type, whose references the heap shows.
use gc_lite.Base.{ℕ, Bool, true, false, ◌||◌, ◌≡◌, refl, ◌⊎◌, inl, inr}

pub data GcTriColor : Type 0 where
  white gray black : GcTriColor

pub color_cases :
    (c : GcTriColor) → (c ≡ GcTriColor.black) ⊎ (c ≡ GcTriColor.white) ⊎ (c ≡ GcTriColor.gray)
color_cases GcTriColor.white = inr (inl refl)
color_cases GcTriColor.gray = inr (inr refl)
color_cases GcTriColor.black = inl refl

abbrev pub is_black : GcTriColor → Bool
is_black GcTriColor.black = true
is_black _ = false

abbrev pub is_gray : GcTriColor → Bool
is_gray GcTriColor.gray = true
is_gray _ = false

abbrev pub is_white : GcTriColor → Bool
is_white GcTriColor.white = true
is_white _ = false

-- An address, never null.
abbrev pub Ptr : Type 0
Ptr = ℕ

pub record GcHead : Type 0 where
  pub dtype : ℕ
  pub color : GcTriColor
  pub arena_alloc : Bool
  pub gray_listed : Bool
  pub root : Bool
  pub local : Bool
  pub traverse_visited : Bool
  pub partition_id : ℕ
  pub weak_id : ℕ

abbrev pub is_root_or_local : GcHead → Bool
is_root_or_local n = n.root || n.local
