-- ===== src/Prelude/Bits.antt =====
-- A single bit of a number, and what `&` and `|` do to it.
use Prim.Native.Nat.{bit_and, bit_or, digits, bit_and-bitwise, bit_or-bitwise}
use Prim.Native.Nat.{ℕ, zero, suc, ◌/◌, ◌%◌, ◌^◌, ◌≤◌, min, max}
use mathlib.Core.Path.{◌≡◌, refl, sym, ap, ◌∙◌}
use mathlib.Core.Logic.{◌↔◌}
use native.Mathlib.Nat.{pow-suc}
use native.Mathlib.Omega.{arith}
use juncture.Prelude.Tests.{if◌then◌else◌, ◌==◌}

-- The binary digit of `a` with weight 2 ^ i.
abbrev pub bit : ℕ → ℕ → ℕ
bit zero a = a % 2
bit (suc i) a = bit i (a / 2)

bit-zero : (i : ℕ) → bit i 0 ≡ 0
bit-zero zero = refl
bit-zero (suc i) = bit-zero i

pub bit-pow : (i j : ℕ) → bit j (2 ^ i) ≡ (if i == j then 1 else 0)
bit-pow zero zero = refl
bit-pow zero (suc j) = ground (arith, bit-zero j)
bit-pow (suc i) zero = ground (arith, pow-suc 2 i)
bit-pow (suc i) (suc j) =
    let half : 2 ^ suc i / 2 ≡ 2 ^ i = omega (arith, pow-suc 2 i) in
    ap (bit j) half ∙ bit-pow i j ∙ ground arith

pub bit-lt : (i a : ℕ) → bit i a ≤ 1
bit-lt zero a = omega arith
bit-lt (suc i) a = bit-lt i (a / 2)

-- The bits of a bitwise operation, from the recursion on digits that defines it: `z` is the rest
-- where the first number has no digits left, and `f` works on one digit of each.
module _ (z : ℕ → ℕ) (f : ℕ → ℕ → ℕ) (bit-rest : (i b : ℕ) → bit i (z b) ≡ f 0 (bit i b))
    (digit : (x y : ℕ) → x ≤ 1 → y ≤ 1 → f x y ≤ 1) where
  bit-digits_end : (i b r : ℕ) → r ≡ z b → bit i r ≡ f (bit i 0) (bit i b)
  bit-digits_end i b r e =
      ap (bit i) e ∙ bit-rest i b ∙ ap (λ (x : ℕ). f x (bit i b)) (sym (bit-zero i))

  bit-digits : (n i a b : ℕ) → a ≤ n → bit i (digits z f n a b) ≡ f (bit i a) (bit i b)
  bit-digits zero i zero b h = bit-digits_end i b (digits z f 0 0 b) refl
  bit-digits (suc n) i zero b h = bit-digits_end i b (digits z f (suc n) 0 b) refl
  bit-digits zero i (suc a) b h = absurd (omega arith)
  bit-digits (suc n) zero (suc a) b h =
      omega (arith, digit (suc a % 2) (b % 2) (omega arith) (omega arith))
  bit-digits (suc n) (suc i) (suc a) b h =
      let carried : digits z f (suc n) (suc a) b / 2 ≡ digits z f n (suc a / 2) (b / 2) =
        omega (arith, digit (suc a % 2) (b % 2) (omega arith) (omega arith)) in
      ap (bit i) carried ∙ bit-digits n i (suc a / 2) (b / 2) (omega arith)

pub bit-bit_or : (i a b : ℕ) → bit i (bit_or a b) ≡ max (bit i a) (bit i b)
bit-bit_or i a b =
    ap (bit i) (bit_or-bitwise a b)
    ∙ bit-digits (λ y. y) max (λ i b. omega arith) (λ x y p q. omega arith) a i a b (omega arith)

bit-bit_and : (i a b : ℕ) → bit i (bit_and a b) ≡ min (bit i a) (bit i b)
bit-bit_and i a b =
    ap (bit i) (bit_and-bitwise a b)
    ∙ bit-digits (λ y. 0) min (λ i b. omega (arith, bit-zero i)) (λ x y p q. omega arith) a i a b
        (omega arith)

-- A number whose bits are all 0.
no_bits : (n a : ℕ) → a ≤ n → ((j : ℕ) → bit j a ≡ 0) → a ≡ 0
no_bits n zero h z = refl
no_bits zero (suc a) h z = absurd (omega arith)
no_bits (suc n) (suc a) h z =
    omega (arith, z 0, no_bits n (suc a / 2) (omega arith) (λ j. z (suc j)))

-- `a & (1 << i)` is 0 exactly where the bit is.
pub bit_and-pow_zero : (i a : ℕ) → (bit_and a (2 ^ i) ≡ 0) ↔ (bit i a ≡ 0)
bit_and-pow_zero i a = (
  λ e. ground (arith, bit-bit_and i a (2 ^ i), bit-pow i i, ap (bit i) e, bit-zero i, bit-lt i a),
  λ e.
      no_bits (bit_and a (2 ^ i)) (bit_and a (2 ^ i)) (omega arith)
        (λ j. ground (arith, bit-bit_and j a (2 ^ i), bit-pow i j, e)),
)
