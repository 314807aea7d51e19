-- ===== src/Word/Slices.antt =====
-- 4-bit slices of 64-bit words: what the mask above a slice keeps, where two different words
-- part, and how slices decide equality and order.
use native.Mathlib.Nat.{div-one, div-lt_iff_lt-mul, pow-suc}
use native.Mathlib.Nat.{div-le_self, one-le-pow, add-suc, add-zero}
use native.Mathlib.Nat.{div-mul-le_self, le_trans}
use ptok.Base.{
  ℕ, zero, suc, ◌+◌, ◌-◌, ◌*◌, ◌/◌, ◌%◌, ◌^◌, ◌≤◌, ◌<◌, bit_and, bit_xor, ◌≡◌, ◌≢◌, refl, sym, ap,
  ◌∙◌, ◌↔◌, arith, Bool, true, ◌&&◌, ◌==◌, ==_iff, Bool-cases, eq-cases, inl, inr, ltb,
}
use ptok.Word.{word, shl, complement, mssb_search, util_mssb_index64}
use ptok.Word.Bits.{
  shr-bit_xor, eq_of_bit_xor, bit_xor_self, bit_and-mul-pow, bit_and_ones, div-pow-suc,
  div-pow-suc',
}

-- A test that evaluation passes at every value below a small bound.
passes : (bound : ℕ) → (ℕ → Bool) → Bool
passes zero test = true
passes (suc bound) test = passes bound test && test bound

passes_at :
    (bound : ℕ) (test : ℕ → Bool) → passes bound test ≡ true → (s : ℕ) → s < bound → test s ≡ true
unfolding passes
passes_at zero test h s lt = elim lt [ ]
passes_at (suc bound) test h s lt = elim (eq-cases s bound) [
  | inl e ↦ rw e (ground arith)
  | inr ne ↦ passes_at bound test (ground arith) s (omega arith)
]

mask_table : passes 61 (λ s. shl (complement 15) s == 2 ^ s * (2 ^ 4 * (2 ^ (60 - s) - 1))) ≡ true
unfolding passes
mask_table = refl

width_table : passes 61 (λ s. 2 ^ 64 == 2 ^ (60 - s) * 16 * 2 ^ s) ≡ true
unfolding passes
width_table = refl

round_table : passes 64 (λ s. bit_and s 252 == s / 4 * 4) ≡ true
unfolding passes
round_table = refl

pub pow-pos : (s : ℕ) → 0 < 2 ^ s
pow-pos s = one-le-pow s 2 (omega arith)

-- `x & (~NIB << s)` keeps the bits above the slice at `s`.
pub bit_and-path_mask :
    (a s : ℕ)
    → a < word
    → s ≤ 60
    → bit_and a (shl (complement 15) s) ≡ 2 ^ s * (16 * (a / 2 ^ s / 16))
bit_and-path_mask a s h p =
    let mask = (==_iff (shl (complement 15) s) _).0 (passes_at 61 _ mask_table s (omega arith)) in
    let width = (==_iff (2 ^ 64) _).0 (passes_at 61 _ width_table s (omega arith)) in
    let top : a / 2 ^ s < 2 ^ (60 - s) * 16 = (div-lt_iff_lt-mul (pow-pos s)).1 (rw (← width) h) in
    let fits : a / 2 ^ s / 16 < 2 ^ (60 - s) = omega arith in
    let upper =
      bit_and-mul-pow 4 (a / 2 ^ s) (2 ^ (60 - s) - 1)
      ∙ ap (λ (t : ℕ). 16 * t) (bit_and_ones (60 - s) (a / 2 ^ s / 16) fits) in
    ap (bit_and a) mask
    ∙ bit_and-mul-pow s a (2 ^ 4 * (2 ^ (60 - s) - 1))
    ∙ ap (λ (t : ℕ). 2 ^ s * t) upper

div-pow-add : (x a b : ℕ) → x / 2 ^ (a + b) ≡ x / 2 ^ a / 2 ^ b
div-pow-add x a zero = rw (add-zero a, div-one)
div-pow-add x a (suc b) =
    rw (add-suc a b, div-pow-suc' x (a + b), div-pow-add x a b) (sym (div-pow-suc' (x / 2 ^ a) b))

-- Two words with the same bits from `s` on agree from every higher position on.
pub div-pow_mono : (a b s t : ℕ) → s ≤ t → a / 2 ^ s ≡ b / 2 ^ s → a / 2 ^ t ≡ b / 2 ^ t
div-pow_mono a b s t h e =
    let split : t ≡ s + (t - s) = omega arith in
    rw split
      (div-pow-add a s (t - s) ∙ ap (λ (x : ℕ). x / 2 ^ (t - s)) e ∙ sym (div-pow-add b s (t - s)))

-- the bits above the slice at `s`
pub above_lem : (a s : ℕ) → a / 2 ^ s / 16 ≡ a / 2 ^ (s + 4)
above_lem a s = sym (div-pow-add a s 4)

pub above_mono : (a b s t : ℕ) → s + 4 ≤ t → a / 2 ^ s / 16 ≡ b / 2 ^ s / 16 → a / 2 ^ t ≡ b / 2 ^ t
above_mono a b s t h e = div-pow_mono a b (s + 4) t h (sym (above_lem a s) ∙ e ∙ above_lem b s)

pub above_up :
    (a b s t : ℕ) → s ≤ t → a / 2 ^ s / 16 ≡ b / 2 ^ s / 16 → a / 2 ^ t / 16 ≡ b / 2 ^ t / 16
above_up a b s t h e =
    let up = above_mono a b s (t + 4) (omega arith) e in above_lem a t ∙ up ∙ sym (above_lem b t)

-- A greater quotient comes from a greater word.
pub lt_of_div-pow : (a b s : ℕ) → a / 2 ^ s < b / 2 ^ s → a < b
lt_of_div-pow a b s h =
    le_trans ((div-lt_iff_lt-mul {k = 2 ^ s} (pow-pos s)).0 h) (div-mul-le_self b (2 ^ s))

-- The highest set bit of a number of at most `fuel + 1` bits.
mssb_search_lem :
    (fuel x : ℕ)
    → 0 < x
    → x < 2 ^ suc fuel
    → (mssb_search fuel x ≤ fuel) × (x / 2 ^ mssb_search fuel x ≡ 1)
unfolding mssb_search
mssb_search_lem zero x h p = (omega arith, rw (div-one x) (omega arith))
mssb_search_lem (suc fuel) x h p = elim (Bool-cases (ltb x 2)) [
  | inl small ↦ rw small (omega arith, rw (div-one x) (ground arith))
  | inr big ↦ rw big (
      let double : 2 ^ suc (suc fuel) ≡ 2 ^ suc fuel * 2 = pow-suc 2 (suc fuel) in
      let found = mssb_search_lem fuel (x / 2) (ground arith) (omega arith) in
      (omega (arith, found.0), div-pow-suc x (mssb_search fuel (x / 2)) ∙ found.1))
]

pub util_mssb_index64_lem :
    (x : ℕ) → x ≢ 0 → x < word → (util_mssb_index64 x ≤ 63) × (x / 2 ^ util_mssb_index64 x ≡ 1)
unfolding util_mssb_index64
util_mssb_index64_lem x h p = mssb_search_lem 63 x (omega arith) p

mssb_search-le : (fuel x : ℕ) → mssb_search fuel x ≤ fuel
unfolding mssb_search
mssb_search-le zero x = omega arith
mssb_search-le (suc fuel) x = ground (arith, mssb_search-le fuel (x / 2))

wide_round_table : passes 64 (λ s. bit_and s (2 ^ 32 - 4) == bit_and s 252) ≡ true
unfolding passes
wide_round_table = refl

-- The mask of an `int` and that of an `unsigned char` leave the same of a bit's index.
pub bit_and-wide_round :
    (x : ℕ) → bit_and (util_mssb_index64 x) (2 ^ 32 - 4) ≡ bit_and (util_mssb_index64 x) 252
unfolding util_mssb_index64
bit_and-wide_round x =
    (==_iff _ _).0
      (passes_at 64 _ wide_round_table (mssb_search 63 x) (omega (arith, mssb_search-le 63 x)))

-- the slice that holds the highest bit in which two words differ
abbrev pub split_shift : ℕ → ℕ
split_shift at = bit_and (util_mssb_index64 at) 252

low_digit : (y r : ℕ) → r < 4 → y / 2 ^ r ≡ 1 → (y ≢ 0) × (y / 16 ≡ 0)
low_digit y zero p e = (omega (arith, div-one y), omega (arith, div-one y))
low_digit y (suc zero) p e = (omega arith, omega arith)
low_digit y (suc (suc zero)) p e = (omega arith, omega arith)
low_digit y (suc (suc (suc zero))) p e = (omega arith, omega arith)
low_digit y (suc (suc (suc (suc r)))) p e = absurd (omega arith)

pub split_shift_lem :
    (x : ℕ)
    → x ≢ 0
    → x < word
    → (split_shift x ≤ 60)
      × (split_shift x % 4 ≡ 0)
      × (x / 2 ^ split_shift x ≢ 0)
      × (x / 2 ^ split_shift x / 16 ≡ 0)
split_shift_lem x h p =
    let m = util_mssb_index64 x in
    let (small, one) = util_mssb_index64_lem x h p in
    let round = (==_iff (bit_and m 252) _).0 (passes_at 64 _ round_table m (omega arith)) in
    let parts : m ≡ m / 4 * 4 + m % 4 = omega arith in
    let digit =
      low_digit (x / 2 ^ (m / 4 * 4)) (m % 4) (omega arith)
        (sym (div-pow-add x (m / 4 * 4) (m % 4)) ∙ ap (λ (t : ℕ). x / 2 ^ t) (sym parts) ∙ one) in
    rw round (omega arith, omega arith, digit.0, digit.1)

pub bit_xor-lt-word : (a b : ℕ) → a < word → b < word → bit_xor a b < word
bit_xor-lt-word a b p q =
    let top : bit_xor a b / 2 ^ 64 ≡ bit_xor (a / 2 ^ 64) (b / 2 ^ 64) = shr-bit_xor 64 a b in
    let left : a / 2 ^ 64 ≡ 0 = omega arith in
    let right : b / 2 ^ 64 ≡ 0 = omega arith in
    let none_left : bit_xor (a / 2 ^ 64) (b / 2 ^ 64) ≡ 0 = rw (left, right) (bit_xor_self 0) in
    omega arith

pub bit_xor_iff : (a b : ℕ) → ((bit_xor a b == 0) ≡ true) ↔ (a ≡ b)
bit_xor_iff a b =
    (λ h. eq_of_bit_xor a b ((==_iff _ 0).0 h), λ e. (==_iff _ 0).1 (rw e (bit_xor_self b)))

-- Two different words agree above the slice where they part, and differ in it.
pub record Parts (a b s : ℕ) : Type 0 where
  pub bound : s ≤ 60
  pub round : s % 4 ≡ 0
  pub above : a / 2 ^ s / 16 ≡ b / 2 ^ s / 16
  pub apart : a / 2 ^ s ≢ b / 2 ^ s

pub split_shift-Parts :
    (a b : ℕ) → a < word → b < word → a ≢ b → Parts a b (split_shift (bit_xor a b))
split_shift-Parts a b p q ne =
    let x = bit_xor a b in
    let s = split_shift x in
    let (bound, round, digit, high) =
      split_shift_lem x (λ e. ne (eq_of_bit_xor a b e)) (bit_xor-lt-word a b p q) in
    let shifted : x / 2 ^ s ≡ bit_xor (a / 2 ^ s) (b / 2 ^ s) = shr-bit_xor s a b in
    record {
      bound = bound;
      round = round;
      above = eq_of_bit_xor (a / 2 ^ s / 16) (b / 2 ^ s / 16) (
          sym (shr-bit_xor 4 (a / 2 ^ s) (b / 2 ^ s))
          ∙ ap (λ (t : ℕ). t / 16) (sym shifted)
          ∙ high);
      apart =
          λ e. digit (shifted ∙ ap (λ (t : ℕ). bit_xor t (b / 2 ^ s)) e ∙ bit_xor_self (b / 2 ^ s));
    }

-- `(a ^ b) >> s & ~NIB` is zero exactly when the words agree above the slice at `s`.
pub bit_xor-above_iff :
    (a b s : ℕ)
    → a < word
    → b < word
    → ((bit_and (bit_xor a b / 2 ^ s) (complement 15) == 0) ≡ true)
      ↔ (a / 2 ^ s / 16 ≡ b / 2 ^ s / 16)
bit_xor-above_iff a b s p q =
    let y = bit_xor a b / 2 ^ s in
    let small : y / 16 < 2 ^ 60 =
      omega (arith, div-le_self (bit_xor a b) (2 ^ s), bit_xor-lt-word a b p q) in
    let masked : bit_and y (complement 15) ≡ 16 * (y / 16) =
      bit_and-mul-pow 4 y (2 ^ 60 - 1) ∙ ap (λ (t : ℕ). 16 * t) (bit_and_ones 60 (y / 16) small) in
    let digits : y / 16 ≡ bit_xor (a / 2 ^ s / 16) (b / 2 ^ s / 16) =
      ap (λ (t : ℕ). t / 16) (shr-bit_xor s a b) ∙ shr-bit_xor 4 (a / 2 ^ s) (b / 2 ^ s) in
    (
      λ h. eq_of_bit_xor _ _ (omega (arith, (==_iff _ 0).0 h)),
      λ e. (==_iff _ 0).1 (
          omega
            (arith, ap (λ (t : ℕ). bit_xor t (b / 2 ^ s / 16)) e, bit_xor_self (b / 2 ^ s / 16))),
    )
