-- ===== src/Weak/Versions.antt =====
-- The versions of a slot over its reuses.
use gc_lite.Base.{ℕ, zero, suc, ◌+◌, ◌-◌, ◌%◌, ◌≡◌, ◌≢◌, ◌<◌, ◌∙◌, ap, arith}
use gc_lite.Weak.{next_version}

-- The version after `n` reuses.
unfoldable pub reused : ℕ → ℕ → ℕ
reused zero v = v
reused (suc n) v = next_version (reused n v)

next_version-mod : (x : ℕ) → next_version (x % 255 + 1) ≡ (x + 1) % 255 + 1
unfolding next_version
next_version-mod x = ground arith

reused-mod : (n v : ℕ) → 0 < v → v < 256 → reused n v ≡ (v - 1 + n) % 255 + 1
unfolding reused
reused-mod zero v pos_ small = omega arith
reused-mod (suc n) v pos_ small =
    ap next_version (reused-mod n v pos_ small)
    ∙ next_version-mod (v - 1 + n)
    ∙ ap (λ (x : ℕ). x % 255 + 1) (omega arith)

-- A version that was handed out does not come back within the next 254 reuses of its slot, and is the
-- slot's version again after 255.
pub next_version-reused :
    (v n : ℕ) → 0 < v → v < 256 → n < 254 → (reused (suc n) v ≢ v) × (reused 255 v ≡ v)
next_version-reused v n pos_ small few = (
  λ e. absurd (omega (arith, reused-mod (suc n) v pos_ small, e)),
  omega (arith, reused-mod 255 v pos_ small),
)
