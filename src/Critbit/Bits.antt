-- ===== src/Critbit/Bits.antt =====
-- The tests of critbit.c on a node's bit and path, and what agreeing below a bit means.
use native.Mathlib.Nat.{mod-one, div-one, mod-eq_of_lt}
use native.Mathlib.Decide.{dec_lt}
use ptok.Base.{
  ℕ, zero, suc, ◌*◌, ◌/◌, ◌%◌, ◌^◌, ◌≤◌, ◌<◌, bit_and, ◌≡◌, ◌≢◌, ◌↔◌, refl, sym, ap, ◌∙◌, arith,
  true, ◌==◌, ==_iff,
}
use ptok.Word.Lowest.{bit_and_one, bit_and_one', mod-pow-suc}
use ptok.Word.Bits.{div-pow-suc}
use ptok.Word.Slices.{pow-pos}

-- whether 2 ^ i times a digit is 0
digit_iff : (i d x : ℕ) → d < 2 → x ≡ 2 ^ i * d → ((x == 0) ≡ true) ↔ (d ≡ 0)
digit_iff i zero x h e = (λ q. refl, λ q. (==_iff x 0).1 (omega arith))
digit_iff i (suc zero) x h e =
    (λ q. absurd (omega (arith, (==_iff x 0).0 q, pow-pos i)), λ q. absurd (omega arith))
digit_iff i (suc (suc d)) x h e = absurd (omega arith)

-- `!(bit & key)` and `!(key & bit)`
pub side_iff : (i key : ℕ) → ((bit_and (2 ^ i) key == 0) ≡ true) ↔ (key / 2 ^ i % 2 ≡ 0)
side_iff i key = digit_iff i (key / 2 ^ i % 2) _ (omega arith) (bit_and_one i key)

pub side_iff' : (i key : ℕ) → ((bit_and key (2 ^ i) == 0) ≡ true) ↔ (key / 2 ^ i % 2 ≡ 0)
side_iff' i key = digit_iff i (key / 2 ^ i % 2) _ (omega arith) (bit_and_one' i key)

-- the digits of x below a power of two are those of what is left of x below a greater one
pub mod-mod-pow : (x i j : ℕ) → i ≤ j → x % 2 ^ j % 2 ^ i ≡ x % 2 ^ i
mod-mod-pow x zero j h = rw (mod-one (x % 2 ^ j), mod-one x)
mod-mod-pow x (suc i) zero h = absurd (omega arith)
mod-mod-pow x (suc i) (suc j) h =
    let half : x % 2 ^ suc j / 2 ≡ x / 2 % 2 ^ j = omega (arith, mod-pow-suc x j) in
    omega (
      arith,
      mod-pow-suc x j,
      mod-pow-suc x i,
      mod-pow-suc (x % 2 ^ suc j) i,
      ap (λ (t : ℕ). t % 2 ^ i) half,
      mod-mod-pow (x / 2) i j (omega arith),
    )

pub digit-mod-pow : (x i j : ℕ) → i < j → x % 2 ^ j / 2 ^ i % 2 ≡ x / 2 ^ i % 2
digit-mod-pow x i zero h = absurd (omega arith)
digit-mod-pow x zero (suc j) h = omega (arith, mod-pow-suc x j, div-one x, div-one (x % 2 ^ suc j))
digit-mod-pow x (suc i) (suc j) h =
    let half : x % 2 ^ suc j / 2 ≡ x / 2 % 2 ^ j = omega (arith, mod-pow-suc x j) in
    rw (div-pow-suc (x % 2 ^ suc j) i, div-pow-suc x i, half)
      (digit-mod-pow (x / 2) i j (omega arith))

-- What keys with the same remainder have in common further down.
pub agree_below :
    (x p i j : ℕ)
    → i < j
    → x % 2 ^ j ≡ p
    → (x % 2 ^ i ≡ p % 2 ^ i) × (x / 2 ^ i % 2 ≡ p / 2 ^ i % 2)
agree_below x p i j h e = (
  sym (mod-mod-pow x i j (omega arith)) ∙ ap (λ (t : ℕ). t % 2 ^ i) e,
  sym (digit-mod-pow x i j h) ∙ ap (λ (t : ℕ). t / 2 ^ i % 2) e,
)

-- A key that leaves a node's path does so below the node's bit.
pub index-lt : (key p i j : ℕ) → p < 2 ^ i → p % 2 ^ j ≡ key % 2 ^ j → key % 2 ^ i ≢ p → j < i
index-lt key p i j fits same ne = elim (dec_lt j i) [
  | yes lt ↦ lt
  | no ge ↦ absurd (
      ne (
        sym (mod-mod-pow key i j (omega arith))
        ∙ ap (λ (t : ℕ). t % 2 ^ i) (sym same)
        ∙ mod-mod-pow p i j (omega arith)
        ∙ mod-eq_of_lt fits))
]
