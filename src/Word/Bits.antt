-- ===== src/Word/Bits.antt =====
-- Laws of the bitwise operations at variables: digit by digit, shifted, and against a mask.
use Prim.Native.Nat.{min, digits, bitwise, differ, bit_and-bitwise, bit_xor-bitwise}
use native.Mathlib.Nat.{
  div-div-eq-div-mul, pow-suc, mul_comm, le_refl, div-one, one-mul, mul_assoc, one-le-pow,
}
use ptok.Base.{
  ℕ, zero, suc, ◌+◌, ◌-◌, ◌*◌, ◌/◌, ◌%◌, ◌^◌, ◌≤◌, ◌<◌, bit_and, bit_xor, ◌≡◌, refl, sym, eq-cases,
  inl, inr, ap, ◌∙◌, arith,
}

-- The recursion behind the native operations counts down from the first number. One round more
-- changes nothing once the rounds cover that number, so neither do any more.
module _ (last : ℕ → ℕ) (digit : ℕ → ℕ → ℕ) where
  one_round_more :
      (rounds x y : ℕ)
      → x ≤ rounds
      → digits last digit (suc rounds) x y ≡ digits last digit rounds x y
  one_round_more zero zero y h = refl
  one_round_more zero (suc x) y h = elim h [ ]
  one_round_more (suc rounds) zero y h = refl
  one_round_more (suc rounds) (suc x) y h =
      rw (one_round_more rounds (suc x / 2) (y / 2) (omega arith))

  rounds_enough :
      (rounds x y : ℕ) → x ≤ rounds → digits last digit rounds x y ≡ bitwise last digit x y
  rounds_enough zero zero y h = refl
  rounds_enough zero (suc x) y h = elim h [ ]
  rounds_enough (suc rounds) x y h = elim (eq-cases x (suc rounds)) [
    | inl e ↦ rw e
    | inr ne ↦
        let le : x ≤ rounds = omega arith in
        one_round_more rounds x y le ∙ rounds_enough rounds x y le
  ]

  lowest_digit :
      (x y : ℕ)
      → bitwise last digit (suc x) y
        ≡ bitwise last digit (suc x / 2) (y / 2) * 2 + digit (suc x % 2) (y % 2)
  lowest_digit x y = rw (rounds_enough x (suc x / 2) (y / 2) (omega arith))

pub zero-bit_xor : (b : ℕ) → bit_xor 0 b ≡ b
zero-bit_xor b = bit_xor-bitwise 0 b

pub low_bit_and : (a b : ℕ) → bit_and a b ≡ bit_and (a / 2) (b / 2) * 2 + min (a % 2) (b % 2)
low_bit_and zero b = simp bit_and-bitwise (omega arith)
low_bit_and (suc a) b = simp bit_and-bitwise (lowest_digit (λ _. 0) min a b)

differ_zero : (b : ℕ) → differ 0 b ≡ b
differ_zero b = refl

pub low_bit_xor : (a b : ℕ) → bit_xor a b ≡ bit_xor (a / 2) (b / 2) * 2 + differ (a % 2) (b % 2)
low_bit_xor zero b = simp bit_xor-bitwise (omega arith)
low_bit_xor (suc a) b = simp bit_xor-bitwise (lowest_digit (λ y. y) differ a b)

-- one binary digit of an exclusive or
pub differ_bit : (x y : ℕ) → x < 2 → y < 2 → differ x y < 2
differ_bit zero y p q = q
differ_bit (suc zero) zero p q = omega arith
differ_bit (suc zero) (suc y) p q = omega arith
differ_bit (suc (suc x)) y p q = absurd (omega arith)

pub differ_eq : (x y : ℕ) → x < 2 → y < 2 → differ x y ≡ 0 → x ≡ y
differ_eq zero y p q e = sym e
differ_eq (suc zero) zero p q e = absurd (omega arith)
differ_eq (suc zero) (suc y) p q e = omega arith
differ_eq (suc (suc x)) y p q e = absurd (omega arith)

pub half-bit_xor : (a b : ℕ) → bit_xor a b / 2 ≡ bit_xor (a / 2) (b / 2)
half-bit_xor a b =
    omega (arith, low_bit_xor a b, differ_bit (a % 2) (b % 2) (omega arith) (omega arith))

-- x / 2 ^ (k + 1) by way of x / 2
pub div-pow-suc : (x k : ℕ) → x / 2 ^ suc k ≡ x / 2 / 2 ^ k
div-pow-suc x k = rw (pow-suc 2 k, mul_comm (2 ^ k) 2) (sym (div-div-eq-div-mul x 2 (2 ^ k)))

-- x / 2 ^ (k + 1) by way of x / 2 ^ k
pub div-pow-suc' : (x k : ℕ) → x / 2 ^ suc k ≡ x / 2 ^ k / 2
div-pow-suc' x k = rw (pow-suc 2 k) (sym (div-div-eq-div-mul x (2 ^ k) 2))

-- The shift of an exclusive or is that of its parts.
pub shr-bit_xor : (k a b : ℕ) → bit_xor a b / 2 ^ k ≡ bit_xor (a / 2 ^ k) (b / 2 ^ k)
shr-bit_xor zero a b = rw (div-one (bit_xor a b), div-one a, div-one b)
shr-bit_xor (suc k) a b =
    rw (div-pow-suc (bit_xor a b) k, div-pow-suc a k, div-pow-suc b k, half-bit_xor a b)
      (shr-bit_xor k (a / 2) (b / 2))

eq_of_bit_xor_fuel : (n a b : ℕ) → a < n → bit_xor a b ≡ 0 → a ≡ b
eq_of_bit_xor_fuel zero a b h e = elim h [ ]
eq_of_bit_xor_fuel (suc n) zero b h e = sym e ∙ zero-bit_xor b
eq_of_bit_xor_fuel (suc n) (suc a) b h e = omega (
  arith,
  low_bit_xor (suc a) b,
  eq_of_bit_xor_fuel n (suc a / 2) (b / 2) (omega arith) (omega (arith, low_bit_xor (suc a) b)),
  differ_eq (suc a % 2) (b % 2) (omega arith) (omega arith) (omega (arith, low_bit_xor (suc a) b)),
)

pub eq_of_bit_xor : (a b : ℕ) → bit_xor a b ≡ 0 → a ≡ b
eq_of_bit_xor a b = eq_of_bit_xor_fuel (suc a) a b (le_refl _)

pub differ_self : (x : ℕ) → differ x x ≡ 0
differ_self zero = refl
differ_self (suc x) = differ_self x

bit_xor_self_fuel : (n a : ℕ) → a < n → bit_xor a a ≡ 0
bit_xor_self_fuel zero a h = elim h [ ]
bit_xor_self_fuel (suc n) zero h = zero-bit_xor 0
bit_xor_self_fuel (suc n) (suc a) h = omega (
  arith,
  low_bit_xor (suc a) (suc a),
  bit_xor_self_fuel n (suc a / 2) (omega arith),
  differ_self (suc a % 2),
)

pub bit_xor_self : (a : ℕ) → bit_xor a a ≡ 0
bit_xor_self a = bit_xor_self_fuel (suc a) a (le_refl _)

bit_and-zero_fuel : (n a : ℕ) → a < n → bit_and a 0 ≡ 0
bit_and-zero_fuel zero a h = elim h [ ]
bit_and-zero_fuel (suc n) zero h = simp bit_and-bitwise
bit_and-zero_fuel (suc n) (suc a) h =
    omega (arith, low_bit_and (suc a) 0, bit_and-zero_fuel n (suc a / 2) (omega arith))

pub bit_and-zero : (a : ℕ) → bit_and a 0 ≡ 0
bit_and-zero a = bit_and-zero_fuel (suc a) a (le_refl _)

-- x & 15, the mask `NIB`
pub bit_and_nib : (a : ℕ) → bit_and a 15 ≡ a % 16
bit_and_nib a = omega (
  arith,
  low_bit_and a 15,
  low_bit_and (a / 2) 7,
  low_bit_and (a / 2 / 2) 3,
  low_bit_and (a / 2 / 2 / 2) 1,
  bit_and-zero (a / 2 / 2 / 2 / 2),
)

pub bit_and_double : (a b : ℕ) → bit_and a (2 * b) ≡ 2 * bit_and (a / 2) b
bit_and_double a b =
    let half : 2 * b / 2 ≡ b = omega arith in
    omega (arith, low_bit_and a (2 * b), ap (bit_and (a / 2)) half)

-- A mask whose low bits are clear looks at the high bits only.
pub bit_and-mul-pow : (m a b : ℕ) → bit_and a (2 ^ m * b) ≡ 2 ^ m * bit_and (a / 2 ^ m) b
bit_and-mul-pow zero a b = rw (div-one a, one-mul b, one-mul (bit_and a b))
bit_and-mul-pow (suc m) a b =
    rw (div-pow-suc a m, pow-suc 2 m, mul_comm (2 ^ m) 2, mul_assoc 2 (2 ^ m) b)
      (bit_and_double a (2 ^ m * b)
        ∙ ap (λ (t : ℕ). 2 * t) (bit_and-mul-pow m (a / 2) b)
        ∙ sym (mul_assoc 2 (2 ^ m) (bit_and (a / 2 / 2 ^ m) b)))

-- A mask of ones keeps every number that fits.
pub bit_and_ones : (n a : ℕ) → a < 2 ^ n → bit_and a (2 ^ n - 1) ≡ a
bit_and_ones zero a h = omega (arith, bit_and-zero a)
bit_and_ones (suc n) a h =
    let double : 2 ^ suc n ≡ 2 ^ n * 2 = pow-suc 2 n in
    let pos : 0 < 2 ^ n = one-le-pow n 2 (omega arith) in
    let half : (2 ^ suc n - 1) / 2 ≡ 2 ^ n - 1 = omega arith in
    omega (
      arith,
      low_bit_and a (2 ^ suc n - 1),
      ap (bit_and (a / 2)) half,
      bit_and_ones n (a / 2) (omega arith),
    )
