-- ===== src/Attrs/Digits.antt =====
-- What the readers and the writers of the packed word see and change, digit by digit.
use gc_lite.Base.{
  ℕ, ◌-◌, ◌*◌, ◌/◌, ◌<◌, ◌≤◌, ◌≡◌, refl, ap, sym, ◌∙◌, false, not, bit_and, bit_or, ◌==◌, ◌||◌,
  ◌&&◌, if◌then◌else◌, arith, subst, some,
}
use gc_lite.Base.Bits.{
  bit, byte, shr, ones, one_at, bit_small, bit-bit_and, bit-bit_or, bit_and-ones, bit_and-one_at,
  byte-bit_and, byte-bit_or, byte-bit_or_left, shr-bit_and, shr-bit_or, bit-one_at, bit-complement,
}
use gc_lite.Node.{GcTriColor, white}
use gc_lite.Attrs.{
  GcNodeFlag, bits, complement, into_u32, try_from, color_mask, dtype, color, set_color,
  insert_flag, remove_flag, contains_flag, is_gray_listed, fresh_attrs,
}

-- The bit that a flag stands for.
unfoldable pub pos : GcNodeFlag → ℕ
pos GcNodeFlag.arena_alloc = 2
pos GcNodeFlag.gray_listed = 3
pos GcNodeFlag.root = 5
pos GcNodeFlag.local = 6
pos GcNodeFlag.traverse_visited = 7

bits-one_at : (f : GcNodeFlag) → bits f ≡ one_at (pos f)
unfolding bits one_at pos
bits-one_at GcNodeFlag.arena_alloc = refl
bits-one_at GcNodeFlag.gray_listed = refl
bits-one_at GcNodeFlag.root = refl
bits-one_at GcNodeFlag.local = refl
bits-one_at GcNodeFlag.traverse_visited = refl

-- The reader of a flag reads its bit.
pub contains_flag-bit : (f : GcNodeFlag) (w : ℕ) → contains_flag f w ≡ (bit (pos f) w == 1)
unfolding contains_flag bits one_at pos
contains_flag-bit GcNodeFlag.arena_alloc w = ground (arith, bit_and-one_at 2 w, bit_small 2 w)
contains_flag-bit GcNodeFlag.gray_listed w = ground (arith, bit_and-one_at 3 w, bit_small 3 w)
contains_flag-bit GcNodeFlag.root w = ground (arith, bit_and-one_at 5 w, bit_small 5 w)
contains_flag-bit GcNodeFlag.local w = ground (arith, bit_and-one_at 6 w, bit_small 6 w)
contains_flag-bit GcNodeFlag.traverse_visited w = ground (arith, bit_and-one_at 7 w, bit_small 7 w)

pub is_gray_listed-contains_flag :
    (w : ℕ) → is_gray_listed w ≡ contains_flag GcNodeFlag.gray_listed w
unfolding is_gray_listed contains_flag bits one_at
is_gray_listed-contains_flag w = ground (arith, bit_and-one_at 3 w, bit_small 3 w)

pub color-byte : (w : ℕ) → color w ≡ try_from (byte 2 w)
unfolding color ones
color-byte w = ap try_from (bit_and-ones 2 w)

shr_eight : (w : ℕ) → shr 8 w ≡ w / 256
unfolding shr
shr_eight w = omega arith

pub dtype-byte : (w : ℕ) → dtype w ≡ byte 8 (shr 8 w)
unfolding dtype ones shr
dtype-byte w =
    omega (arith, shr_eight (bit_and w 0xFF00), shr-bit_and 8 w 0xFF00, bit_and-ones 8 (shr 8 w))

-- Raising a flag.
pub contains_flag-insert_flag :
    (g f : GcNodeFlag) (w : ℕ)
    → contains_flag g (insert_flag f w) ≡ (pos g == pos f || contains_flag g w)
unfolding insert_flag
contains_flag-insert_flag g f w =
    let e : bit (pos g) (bits f) ≡ (if pos g == pos f then 1 else 0) =
      subst (λ m. bit (pos g) m ≡ (if pos g == pos f then 1 else 0)) (sym (bits-one_at f))
        (bit-one_at (pos g) (pos f)) in
    rw (contains_flag-bit g (bit_or w (bits f)), contains_flag-bit g w)
      (ground (arith, bit-bit_or (pos g) w (bits f), bit_small (pos g) w, e))

byte-bits : (f : GcNodeFlag) → byte 2 (bits f) ≡ 0
unfolding byte bits
byte-bits GcNodeFlag.arena_alloc = refl
byte-bits GcNodeFlag.gray_listed = refl
byte-bits GcNodeFlag.root = refl
byte-bits GcNodeFlag.local = refl
byte-bits GcNodeFlag.traverse_visited = refl

pub color-insert_flag : (f : GcNodeFlag) (w : ℕ) → color (insert_flag f w) ≡ color w
unfolding insert_flag
color-insert_flag f w =
    color-byte (bit_or w (bits f))
    ∙ (ap try_from (byte-bit_or 2 w (bits f) (byte-bits f)) ∙ sym (color-byte w))

high-bits : (f : GcNodeFlag) → byte 8 (shr 8 (bits f)) ≡ 0
unfolding byte shr bits
high-bits GcNodeFlag.arena_alloc = refl
high-bits GcNodeFlag.gray_listed = refl
high-bits GcNodeFlag.root = refl
high-bits GcNodeFlag.local = refl
high-bits GcNodeFlag.traverse_visited = refl

pub dtype-insert_flag : (f : GcNodeFlag) (w : ℕ) → dtype (insert_flag f w) ≡ dtype w
unfolding insert_flag
dtype-insert_flag f w =
    rw (dtype-byte (bit_or w (bits f)), dtype-byte w, shr-bit_or 8 w (bits f))
      (byte-bit_or 8 (shr 8 w) (shr 8 (bits f)) (high-bits f))

-- Clearing a flag.
one_at_small : (f : GcNodeFlag) → one_at (pos f) ≤ ones 32
unfolding one_at pos ones
one_at_small f = grind arith

bit-bits-complement :
    (i : ℕ) (f : GcNodeFlag)
    → i < 32
    → bit i (complement (bits f)) ≡ 1 - (if i == pos f then 1 else 0)
unfolding complement ones
bit-bits-complement i f lt =
    (rw (bits-one_at f) (bit-complement 32 i (one_at (pos f)) lt (one_at_small f)))
    ∙ ap (λ n. 1 - n) (bit-one_at i (pos f))

pos_small : (f : GcNodeFlag) → pos f < 32
unfolding pos
pos_small GcNodeFlag.arena_alloc = omega arith
pos_small GcNodeFlag.gray_listed = omega arith
pos_small GcNodeFlag.root = omega arith
pos_small GcNodeFlag.local = omega arith
pos_small GcNodeFlag.traverse_visited = omega arith

pub contains_flag-remove_flag :
    (g f : GcNodeFlag) (w : ℕ)
    → contains_flag g (remove_flag f w) ≡ (not (pos g == pos f) && contains_flag g w)
unfolding remove_flag
contains_flag-remove_flag g f w =
    let m = complement (bits f) in
    rw (contains_flag-bit g (bit_and w m), contains_flag-bit g w)
      (ground (
        arith,
        bit-bit_and (pos g) w m,
        bit_small (pos g) w,
        bit-bits-complement (pos g) f (pos_small g),
      ))

byte-bits-complement : (f : GcNodeFlag) → byte 2 (complement (bits f)) ≡ ones 2
unfolding byte bits complement ones
byte-bits-complement GcNodeFlag.arena_alloc = refl
byte-bits-complement GcNodeFlag.gray_listed = refl
byte-bits-complement GcNodeFlag.root = refl
byte-bits-complement GcNodeFlag.local = refl
byte-bits-complement GcNodeFlag.traverse_visited = refl

pub color-remove_flag : (f : GcNodeFlag) (w : ℕ) → color (remove_flag f w) ≡ color w
unfolding remove_flag
color-remove_flag f w =
    color-byte (bit_and w (complement (bits f)))
    ∙ (ap try_from (byte-bit_and 2 w (complement (bits f)) (byte-bits-complement f))
        ∙ sym (color-byte w))

high-bits-complement : (f : GcNodeFlag) → byte 8 (shr 8 (complement (bits f))) ≡ ones 8
unfolding byte shr bits complement ones
high-bits-complement GcNodeFlag.arena_alloc = refl
high-bits-complement GcNodeFlag.gray_listed = refl
high-bits-complement GcNodeFlag.root = refl
high-bits-complement GcNodeFlag.local = refl
high-bits-complement GcNodeFlag.traverse_visited = refl

pub dtype-remove_flag : (f : GcNodeFlag) (w : ℕ) → dtype (remove_flag f w) ≡ dtype w
unfolding remove_flag
dtype-remove_flag f w =
    let m = complement (bits f) in
    rw (dtype-byte (bit_and w m), dtype-byte w, shr-bit_and 8 w m)
      (byte-bit_and 8 (shr 8 w) (shr 8 m) (high-bits-complement f))

-- Setting the color.
try_from-into_u32 : (c : GcTriColor) → try_from (into_u32 c) ≡ some c
unfolding try_from into_u32
try_from-into_u32 GcTriColor.white = refl
try_from-into_u32 GcTriColor.gray = refl
try_from-into_u32 GcTriColor.black = refl

byte-into_u32 : (c : GcTriColor) → byte 2 (into_u32 c) ≡ into_u32 c
unfolding byte into_u32
byte-into_u32 GcTriColor.white = refl
byte-into_u32 GcTriColor.gray = refl
byte-into_u32 GcTriColor.black = refl

low_byte :
    (c : GcTriColor) (w : ℕ)
    → byte 2 (bit_or (bit_and w (complement color_mask)) (into_u32 c)) ≡ into_u32 c
unfolding byte bit complement into_u32
low_byte c w =
    let a = bit_and w (complement color_mask) in
    let low : byte 2 a ≡ 0 =
      omega
        (arith, bit-bit_and 0 w (complement color_mask), bit-bit_and 1 w (complement color_mask)) in
    byte-bit_or_left 2 a (into_u32 c) low ∙ byte-into_u32 c

pub color-set_color : (c : GcTriColor) (w : ℕ) → color (set_color c w) ≡ some c
unfolding set_color
color-set_color c w =
    let m = complement color_mask in
    let low : byte 2 (bit_or (bit_and w m) (into_u32 c)) ≡ into_u32 c = low_byte c w in
    color-byte (bit_or (bit_and w m) (into_u32 c)) ∙ (ap try_from low ∙ try_from-into_u32 c)

-- The bits that `set_color` leaves alone.
bit-into_u32 : (g : GcNodeFlag) (c : GcTriColor) → bit (pos g) (into_u32 c) ≡ 0
unfolding bit pos into_u32
bit-into_u32 GcNodeFlag.arena_alloc GcTriColor.white = refl
bit-into_u32 GcNodeFlag.arena_alloc GcTriColor.gray = refl
bit-into_u32 GcNodeFlag.arena_alloc GcTriColor.black = refl
bit-into_u32 GcNodeFlag.gray_listed GcTriColor.white = refl
bit-into_u32 GcNodeFlag.gray_listed GcTriColor.gray = refl
bit-into_u32 GcNodeFlag.gray_listed GcTriColor.black = refl
bit-into_u32 GcNodeFlag.root GcTriColor.white = refl
bit-into_u32 GcNodeFlag.root GcTriColor.gray = refl
bit-into_u32 GcNodeFlag.root GcTriColor.black = refl
bit-into_u32 GcNodeFlag.local GcTriColor.white = refl
bit-into_u32 GcNodeFlag.local GcTriColor.gray = refl
bit-into_u32 GcNodeFlag.local GcTriColor.black = refl
bit-into_u32 GcNodeFlag.traverse_visited GcTriColor.white = refl
bit-into_u32 GcNodeFlag.traverse_visited GcTriColor.gray = refl
bit-into_u32 GcNodeFlag.traverse_visited GcTriColor.black = refl

bit-color_mask : (g : GcNodeFlag) → bit (pos g) (complement color_mask) ≡ 1
unfolding bit pos complement
bit-color_mask GcNodeFlag.arena_alloc = refl
bit-color_mask GcNodeFlag.gray_listed = refl
bit-color_mask GcNodeFlag.root = refl
bit-color_mask GcNodeFlag.local = refl
bit-color_mask GcNodeFlag.traverse_visited = refl

pub contains_flag-set_color :
    (g : GcNodeFlag) (c : GcTriColor) (w : ℕ) → contains_flag g (set_color c w) ≡ contains_flag g w
unfolding set_color
contains_flag-set_color g c w =
    let m = complement color_mask in
    rw (contains_flag-bit g (bit_or (bit_and w m) (into_u32 c)), contains_flag-bit g w)
      (ground (
        arith,
        bit-bit_or (pos g) (bit_and w m) (into_u32 c),
        bit-bit_and (pos g) w m,
        bit_small (pos g) w,
        bit-into_u32 g c,
        bit-color_mask g,
      ))

high-into_u32 : (c : GcTriColor) → byte 8 (shr 8 (into_u32 c)) ≡ 0
unfolding byte shr into_u32
high-into_u32 GcTriColor.white = refl
high-into_u32 GcTriColor.gray = refl
high-into_u32 GcTriColor.black = refl

high-color_mask : byte 8 (shr 8 (complement color_mask)) ≡ ones 8
unfolding byte shr complement ones
high-color_mask = refl

pub dtype-set_color : (c : GcTriColor) (w : ℕ) → dtype (set_color c w) ≡ dtype w
unfolding set_color
dtype-set_color c w =
    let m = complement color_mask in
    let b = into_u32 c in
    rw (dtype-byte (bit_or (bit_and w m) b), dtype-byte w, shr-bit_or 8 (bit_and w m) b)
      (byte-bit_or 8 (shr 8 (bit_and w m)) (shr 8 b) (high-into_u32 c)
        ∙ (ap (byte 8) (shr-bit_and 8 w m) ∙ byte-bit_and 8 (shr 8 w) (shr 8 m) high-color_mask))

-- A fresh word.
high_byte : (d : ℕ) → d < 256 → byte 8 (bit_or (shr 8 0xFF000000) (shr 8 (d * 256))) ≡ d
unfolding byte bit shr
high_byte d lt =
    let a = shr 8 0xFF000000 in
    let b = shr 8 (d * 256) in byte-bit_or_left 8 a b refl ∙ omega (arith, shr_eight (d * 256))

bit-shifted : (g : GcNodeFlag) (d : ℕ) → bit (pos g) (d * 256) ≡ 0
unfolding bit pos
bit-shifted GcNodeFlag.arena_alloc d = omega arith
bit-shifted GcNodeFlag.gray_listed d = omega arith
bit-shifted GcNodeFlag.root d = omega arith
bit-shifted GcNodeFlag.local d = omega arith
bit-shifted GcNodeFlag.traverse_visited d = omega arith

bit-sentinel : (g : GcNodeFlag) → bit (pos g) 0xFF000000 ≡ 0
unfolding bit pos
bit-sentinel GcNodeFlag.arena_alloc = refl
bit-sentinel GcNodeFlag.gray_listed = refl
bit-sentinel GcNodeFlag.root = refl
bit-sentinel GcNodeFlag.local = refl
bit-sentinel GcNodeFlag.traverse_visited = refl

low_zero : (d : ℕ) → byte 2 (bit_or 0xFF000000 (d * 256)) ≡ 0
unfolding byte bit
low_zero d = omega (arith, bit-bit_or 0 0xFF000000 (d * 256), bit-bit_or 1 0xFF000000 (d * 256))

pub dtype-fresh_attrs : (d : ℕ) → d < 256 → dtype (fresh_attrs d false) ≡ d
unfolding fresh_attrs
dtype-fresh_attrs d lt =
    rw (dtype-byte (bit_or 0xFF000000 (d * 256)), shr-bit_or 8 0xFF000000 (d * 256))
      (high_byte d lt)

pub contains_flag-fresh_attrs :
    (g : GcNodeFlag) (d : ℕ) → contains_flag g (fresh_attrs d false) ≡ false
unfolding fresh_attrs
contains_flag-fresh_attrs g d =
    let low : bit (pos g) (d * 256) ≡ 0 = bit-shifted g d in
    rw (contains_flag-bit g (bit_or 0xFF000000 (d * 256)))
      (ground (arith, bit-bit_or (pos g) 0xFF000000 (d * 256), low, bit-sentinel g))

pub color-fresh_attrs : (d : ℕ) → color (fresh_attrs d false) ≡ some white
unfolding fresh_attrs try_from
color-fresh_attrs d = color-byte (bit_or 0xFF000000 (d * 256)) ∙ ap try_from (low_zero d)
