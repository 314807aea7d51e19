-- ===== src/Word/Lowest.antt =====
-- The lowest set bit of a word, `x & -x`, and masks of one bit or of the bits below one: the
-- arithmetic behind critbit.c.
use Prim.Native.Nat.{min, differ, bit_and-bitwise}
use native.Mathlib.Nat.{
  div-eq_of_lt, div-lt_iff_lt-mul, mul_comm, mul_assoc, div-add-mod, min_comm, min-zero, pow-suc,
  mod-one, div-one, one-le-pow,
}
use mathlib.Core.Path.{subst}
use ptok.Base.{
  ℕ, zero, suc, ◌+◌, ◌-◌, ◌*◌, ◌/◌, ◌%◌, ◌^◌, ◌<◌, bit_and, bit_xor, ◌≡◌, ◌≢◌, refl, sym, ap, ◌∙◌,
  eq-cases, inl, inr, arith,
}
use ptok.Word.{word, negate}
use ptok.Word.Bits.{
  low_bit_and, low_bit_xor, half-bit_xor, shr-bit_xor, bit_xor_self, eq_of_bit_xor, bit_and-zero,
  bit_and_double, differ_eq, differ_bit, differ_self, div-pow-suc,
}

min-one : (y : ℕ) → y < 2 → min 1 y ≡ y
min-one zero p = refl
min-one (suc zero) p = refl
min-one (suc (suc y)) p = absurd (omega arith)

min_of_one : (x : ℕ) → x < 2 → min x 1 ≡ x
min_of_one zero p = refl
min_of_one (suc zero) p = refl
min_of_one (suc (suc x)) p = absurd (omega arith)

min_other : (x : ℕ) → x < 2 → min x (1 - x) ≡ 0
min_other zero p = refl
min_other (suc zero) p = refl
min_other (suc (suc x)) p = absurd (omega arith)

pub zero-bit_and : (a : ℕ) → bit_and 0 a ≡ 0
zero-bit_and a = bit_and-bitwise 0 a

double-mul : (j y : ℕ) → 2 ^ suc j * y ≡ 2 * (2 ^ j * y)
double-mul j y = rw (pow-suc 2 j, mul_comm (2 ^ j) 2) (mul_assoc 2 (2 ^ j) y)

-- x % 2 ^ (j + 1) by way of x / 2
pub mod-pow-suc : (x j : ℕ) → x % 2 ^ suc j ≡ 2 * (x / 2 % 2 ^ j) + x % 2
mod-pow-suc x j =
    let link : 2 ^ suc j * (x / 2 ^ suc j) ≡ 2 * (2 ^ j * (x / 2 / 2 ^ j)) =
      rw (div-pow-suc x j) (double-mul j (x / 2 / 2 ^ j)) in
    omega (arith, link, div-add-mod x (2 ^ suc j), div-add-mod (x / 2) (2 ^ j))

-- x & (2 ^ j - 1)
pub bit_and_below : (j x : ℕ) → bit_and x (2 ^ j - 1) ≡ x % 2 ^ j
bit_and_below zero x = bit_and-zero x ∙ sym (mod-one x)
bit_and_below (suc j) x =
    let double : 2 ^ suc j ≡ 2 ^ j * 2 = pow-suc 2 j in
    let pos : 0 < 2 ^ j = one-le-pow j 2 (omega arith) in
    let half : (2 ^ suc j - 1) / 2 ≡ 2 ^ j - 1 = omega arith in
    omega (
      arith,
      low_bit_and x (2 ^ suc j - 1),
      ap (bit_and (x / 2)) half,
      bit_and_below j (x / 2),
      mod-pow-suc x j,
      min_of_one (x % 2) (omega arith),
    )

-- 2 ^ j & x
pub bit_and_one : (j x : ℕ) → bit_and (2 ^ j) x ≡ 2 ^ j * (x / 2 ^ j % 2)
bit_and_one zero x =
    omega (arith, low_bit_and 1 x, zero-bit_and (x / 2), div-one x, min-one (x % 2) (omega arith))
bit_and_one (suc j) x =
    let double : 2 ^ suc j ≡ 2 ^ j * 2 = pow-suc 2 j in
    let half : 2 ^ suc j / 2 ≡ 2 ^ j = omega arith in
    let even : 2 ^ suc j % 2 ≡ 0 = omega arith in
    let low : min (2 ^ suc j % 2) (x % 2) ≡ 0 = rw even (min_comm 0 (x % 2) ∙ min-zero (x % 2)) in
    let link : 2 ^ suc j * (x / 2 ^ suc j % 2) ≡ 2 * (2 ^ j * (x / 2 / 2 ^ j % 2)) =
      rw (div-pow-suc x j) (double-mul j (x / 2 / 2 ^ j % 2)) in
    omega (
      arith,
      low_bit_and (2 ^ suc j) x,
      ap (λ y. bit_and y (x / 2)) half,
      bit_and_one j (x / 2),
      low,
      link,
    )

-- x & 2 ^ j
pub bit_and_one' : (j x : ℕ) → bit_and x (2 ^ j) ≡ 2 ^ j * (x / 2 ^ j % 2)
bit_and_one' zero x =
    omega
      (arith, low_bit_and x 1, bit_and-zero (x / 2), div-one x, min_of_one (x % 2) (omega arith))
bit_and_one' (suc j) x =
    let double : 2 ^ suc j ≡ 2 ^ j * 2 = pow-suc 2 j in
    let half : 2 ^ suc j / 2 ≡ 2 ^ j = omega arith in
    let even : 2 ^ suc j % 2 ≡ 0 = omega arith in
    let low : min (x % 2) (2 ^ suc j % 2) ≡ 0 = rw even (min-zero (x % 2)) in
    let link : 2 ^ suc j * (x / 2 ^ suc j % 2) ≡ 2 * (2 ^ j * (x / 2 / 2 ^ j % 2)) =
      rw (div-pow-suc x j) (double-mul j (x / 2 / 2 ^ j % 2)) in
    omega (
      arith,
      low_bit_and x (2 ^ suc j),
      ap (bit_and (x / 2)) half,
      bit_and_one' j (x / 2),
      low,
      link,
    )

-- x and its complement have no bit in common
bit_and-complement : (n x : ℕ) → x < 2 ^ n → bit_and x (2 ^ n - 1 - x) ≡ 0
bit_and-complement zero x h =
    let none_left : 2 ^ 0 - 1 - x ≡ 0 = omega arith in rw none_left (bit_and-zero x)
bit_and-complement (suc n) x h =
    let double : 2 ^ suc n ≡ 2 ^ n * 2 = pow-suc 2 n in
    let half : (2 ^ suc n - 1 - x) / 2 ≡ 2 ^ n - 1 - x / 2 = omega arith in
    let low : (2 ^ suc n - 1 - x) % 2 ≡ 1 - x % 2 = omega arith in
    omega (
      arith,
      low_bit_and x (2 ^ suc n - 1 - x),
      ap (bit_and (x / 2)) half,
      bit_and-complement n (x / 2) (omega arith),
      ap (min (x % 2)) low,
      min_other (x % 2) (omega arith),
    )

-- `at` is the lowest bit where `a` and `b` differ.
pub record Differ (a b at n : ℕ) : Type 0 where
  pub index : ℕ
  pub bound : index < n
  pub bit : at ≡ 2 ^ index
  pub below : a % 2 ^ index ≡ b % 2 ^ index
  pub apart : a / 2 ^ index % 2 ≢ b / 2 ^ index % 2

bit_xor-lt-pow : (n a b : ℕ) → a < 2 ^ n → b < 2 ^ n → bit_xor a b < 2 ^ n
bit_xor-lt-pow n a b p q =
    let pos : 0 < 2 ^ n = one-le-pow n 2 (omega arith) in
    let left : a / 2 ^ n ≡ 0 = div-eq_of_lt p in
    let right : b / 2 ^ n ≡ 0 = div-eq_of_lt q in
    let none_left : bit_xor a b / 2 ^ n ≡ 0 =
      shr-bit_xor n a b ∙ rw (left, right) (bit_xor_self 0) in
    omega (arith, (div-lt_iff_lt-mul {k = 2 ^ n} {x = bit_xor a b} {y = 1} pos).0 (omega arith))

-- a step of `lowest`: the lowest digits are equal, or they are not
same_digit :
    (n a b at : ℕ) → a % 2 ≡ b % 2 → Differ (a / 2) (b / 2) at n → Differ a b (2 * at) (suc n)
same_digit n a b at e d = record {
  index = suc d.index;
  bound = omega (arith, d.bound);
  bit = omega (arith, d.bit, pow-suc 2 d.index);
  below = omega (arith, d.below, mod-pow-suc a d.index, mod-pow-suc b d.index);
  apart = λ h. d.apart (omega (arith, div-pow-suc a d.index, div-pow-suc b d.index));
}

other_digit : (n a b : ℕ) → a % 2 ≢ b % 2 → Differ a b 1 (suc n)
other_digit n a b ne = record {
  index = 0;
  bound = omega arith;
  bit = refl;
  below = omega arith;
  apart = λ h. ne (omega (arith, div-one a, div-one b));
}

even_at :
    (n a b : ℕ)
    → a % 2 ≡ b % 2
    → bit_xor a b < 2 ^ suc n
    → bit_and (bit_xor a b) (2 ^ suc n - bit_xor a b)
      ≡ 2 * bit_and (bit_xor (a / 2) (b / 2)) (2 ^ n - bit_xor (a / 2) (b / 2))
even_at n a b e small =
    let x = bit_xor a b in
    let y = bit_xor (a / 2) (b / 2) in
    let double : 2 ^ suc n ≡ 2 ^ n * 2 = pow-suc 2 n in
    let even : differ (a % 2) (b % 2) ≡ 0 = rw e (differ_self (b % 2)) in
    let twice : 2 ^ suc n - x ≡ 2 * (2 ^ n - y) = omega (arith, low_bit_xor a b) in
    ap (bit_and x) twice
    ∙ bit_and_double x (2 ^ n - y)
    ∙ ap (λ z. 2 * bit_and z (2 ^ n - y)) (half-bit_xor a b)

odd_at :
    (n a b : ℕ)
    → a % 2 ≢ b % 2
    → bit_xor a b < 2 ^ suc n
    → bit_and (bit_xor a b) (2 ^ suc n - bit_xor a b) ≡ 1
odd_at n a b ne small =
    let x = bit_xor a b in
    let double : 2 ^ suc n ≡ 2 ^ n * 2 = pow-suc 2 n in
    let digit : differ (a % 2) (b % 2) < 2 =
      differ_bit (a % 2) (b % 2) (omega arith) (omega arith) in
    let odd : differ (a % 2) (b % 2) ≢ 0 =
      λ h. ne (differ_eq (a % 2) (b % 2) (omega arith) (omega arith) h) in
    let left : x % 2 ≡ 1 = omega (arith, low_bit_xor a b) in
    let right : (2 ^ suc n - x) % 2 ≡ 1 = omega arith in
    let half : (2 ^ suc n - x) / 2 ≡ 2 ^ n - 1 - x / 2 = omega arith in
    let low : min (x % 2) ((2 ^ suc n - x) % 2) ≡ 1 = rw (left, right) (min-one 1 (omega arith)) in
    omega (
      arith,
      low_bit_and x (2 ^ suc n - x),
      ap (bit_and (x / 2)) half,
      bit_and-complement n (x / 2) (omega arith),
      low,
    )

-- `x & -x` at n bits, for the exclusive or of two numbers
lowest :
    (n a b : ℕ)
    → a < 2 ^ n
    → b < 2 ^ n
    → a ≢ b
    → Differ a b (bit_and (bit_xor a b) (2 ^ n - bit_xor a b)) n
lowest zero a b p q ne = absurd (omega arith)
lowest (suc n) a b p q ne =
    let x = bit_xor a b in
    let double : 2 ^ suc n ≡ 2 ^ n * 2 = pow-suc 2 n in
    let small : x < 2 ^ suc n = bit_xor-lt-pow (suc n) a b p q in
    elim (eq-cases (a % 2) (b % 2)) [
      | inl e ↦
          subst (λ at. Differ a b at (suc n)) (sym (even_at n a b e small))
            (same_digit n a b _ e
              (lowest n (a / 2) (b / 2) (omega arith) (omega arith) (λ h. ne (omega arith))))
      | inr other ↦
          subst (λ at. Differ a b at (suc n)) (sym (odd_at n a b other small))
            (other_digit n a b other)
    ]

-- `(a ^ b) & -(a ^ b)`
pub lowest-Differ :
    (a b : ℕ)
    → a < word
    → b < word
    → a ≢ b
    → Differ a b (bit_and (bit_xor a b) (negate (bit_xor a b))) 64
lowest-Differ a b p q ne =
    let x = bit_xor a b in
    let small : x < word = bit_xor-lt-pow 64 a b p q in
    let some_bit : x ≢ 0 = λ e. ne (eq_of_bit_xor a b e) in
    let minus : negate x ≡ word - x = omega arith in rw minus (lowest 64 a b p q ne)
