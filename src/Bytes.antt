-- ===== src/Bytes.antt =====
-- Little-endian integers, as `to_le_bytes` and `from_le_bytes` of Rust's `u32` and `u64`.
-- A byte is a number; what a program sends satisfies `AreBytes`.
use lanterndb.Prelude.{
  ℕ, zero, suc, ◌+◌, ◌*◌, ◌/◌, ◌%◌, ◌^◌, ◌<◌, ◌≡◌, refl, ap, List, [], ◌∷◌, arith, length, All,
}
use native.Mathlib.Nat.{pow-suc}

unfoldable pub from_le_bytes : List ℕ → ℕ
from_le_bytes [] = 0
from_le_bytes (b ∷ bs) = b + 256 * from_le_bytes bs

-- The `k` low bytes.
unfoldable pub to_le_bytes : ℕ → ℕ → List ℕ
to_le_bytes zero n = []
to_le_bytes (suc k) n = (n % 256) ∷ to_le_bytes k (n / 256)

abbrev pub AreBytes : List ℕ → Type 0
AreBytes = All (λ b. b < 256)

pub length-to_le_bytes : (k n : ℕ) → length (to_le_bytes k n) ≡ k
unfolding to_le_bytes
length-to_le_bytes zero n = refl
length-to_le_bytes (suc k) n = ap suc (length-to_le_bytes k (n / 256))

pub to_le_bytes-AreBytes : (k n : ℕ) → AreBytes (to_le_bytes k n)
unfolding to_le_bytes
to_le_bytes-AreBytes zero n = tt
to_le_bytes-AreBytes (suc k) n = (omega arith, to_le_bytes-AreBytes k (n / 256))

pub from_le_bytes-to_le_bytes : (k n : ℕ) → n < 256 ^ k → from_le_bytes (to_le_bytes k n) ≡ n
unfolding to_le_bytes from_le_bytes
from_le_bytes-to_le_bytes zero n h = omega arith
from_le_bytes-to_le_bytes (suc k) n h =
    omega (arith, from_le_bytes-to_le_bytes k (n / 256) (quotient (rw pow-suc at h)))
  where
    quotient : n < 256 ^ k * 256 → n / 256 < 256 ^ k
    quotient p = omega arith

pub to_le_bytes-from_le_bytes :
    (bs : List ℕ) → AreBytes bs → to_le_bytes (length bs) (from_le_bytes bs) ≡ bs
unfolding to_le_bytes from_le_bytes
to_le_bytes-from_le_bytes [] h = refl
to_le_bytes-from_le_bytes (b ∷ bs) h =
    rw (low, high) (ap (λ (t : List ℕ). b ∷ t) (to_le_bytes-from_le_bytes bs h.1))
  where
    low : (b + 256 * from_le_bytes bs) % 256 ≡ b
    low = omega arith

    high : (b + 256 * from_le_bytes bs) / 256 ≡ from_le_bytes bs
    high = omega arith
