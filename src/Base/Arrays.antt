-- ===== src/Base/Arrays.antt =====
-- C arrays of a fixed size, as functions of the index, and the lengths of lists.
use Prim.Native.Nat.{ℕ, zero, suc, ◌+◌, ◌<◌}
use mathlib.Core.Path.{◌≡◌, refl, sym, ap}
use mathlib.Core.Logic.{◌≢◌, inl, inr}
use mathlib.Core.List.{List, [], ◌∷◌}
use mathlib.Core.Option.{Option, none, some}
use native.Mathlib.Omega.{arith}
use ptok.Base.Tests.{◌==◌, if◌then◌else◌, ==_refl, ==_ne, eq-cases}

-- `f[i] = x`
abbrev pub store {ℓ} : {A : Type ℓ} → (ℕ → A) → ℕ → A → ℕ → A
store f i x j = if j == i then x else f j

pub store_self {ℓ} : {A : Type ℓ} (f : ℕ → A) (i : ℕ) (x : A) → store f i x i ≡ x
store_self f i x = rw (==_refl i)

pub store_ne {ℓ} : {A : Type ℓ} (f : ℕ → A) (i j : ℕ) (x : A) → j ≢ i → store f i x j ≡ f j
store_ne f i j x h = rw (==_ne j i h)

-- What holds of the new entry and of the others holds of the changed array.
pub store_case {ℓ κ} :
    {A : Type ℓ} (P : ℕ → A → Type κ) (f : ℕ → A) (i : ℕ) (x : A)
    → P i x
    → ((j : ℕ) → j ≢ i → P j (f j))
    → (j : ℕ) → P j (store f i x j)
store_case P f i x new old j = elim (eq-cases j i) [
  | inl e ↦ rw e (rw (==_refl i) new)
  | inr ne ↦ rw (==_ne j i ne) (old j ne)
]

-- f 0 + … + f (n - 1)
unfoldable pub sum : ℕ → (ℕ → ℕ) → ℕ
sum zero f = 0
sum (suc n) f = f n + sum n f

pub sum_congr : (n : ℕ) (f g : ℕ → ℕ) → ((i : ℕ) → i < n → f i ≡ g i) → sum n f ≡ sum n g
unfolding sum
sum_congr zero f g h = refl
sum_congr (suc n) f g h = omega (arith, h n (omega arith), sum_congr n f g λ i p. h i (omega arith))

-- A change at one index changes the sum by the change there.
pub sum_change :
    (n i : ℕ) (f g : ℕ → ℕ)
    → i < n
    → ((j : ℕ) → j < n → j ≢ i → f j ≡ g j)
    → sum n f + g i ≡ sum n g + f i
unfolding sum
sum_change zero i f g h same = elim h [ ]
sum_change (suc n) i f g h same = elim (eq-cases i n) [
  | inl e ↦ rw e (omega (arith, sum_congr n f g λ j p. same j (omega arith) (omega arith)))
  | inr ne ↦ omega (
    arith,
    same n (omega arith) (λ e. ne (sym e)),
    sum_change n i f g (omega arith) (λ j p. same j (omega arith)),
  )
]

pub sum-store {ℓ} :
    {A : Type ℓ} (n i : ℕ) (f : ℕ → A) (x : A) (g : A → ℕ)
    → i < n
    → sum n (λ j. g (store f i x j)) + g (f i) ≡ sum n (λ j. g (f j)) + g x
sum-store n i f x g h = omega (
  arith,
  sum_change n i (λ j. g (store f i x j)) (λ j. g (f j)) h (λ j p ne. ap g (store_ne f i j x ne)),
  ap g (store_self f i x),
)

pub sum_zero : (n : ℕ) (f : ℕ → ℕ) → ((i : ℕ) → i < n → f i ≡ 0) → sum n f ≡ 0
unfolding sum
sum_zero zero f h = refl
sum_zero (suc n) f h = omega (arith, h n (omega arith), sum_zero n f λ i p. h i (omega arith))

-- Where one term alone is not zero, it is the sum.
pub sum_one : (n i : ℕ) (f : ℕ → ℕ) → i < n → ((j : ℕ) → j < n → j ≢ i → f j ≡ 0) → sum n f ≡ f i
sum_one n i f h rest =
    omega (arith, sum_change n i f (λ j. 0) h rest, sum_zero n (λ j. 0) (λ j p. refl))

-- Where the sum is 0, so is each term.
pub sum_none : (n : ℕ) (f : ℕ → ℕ) → sum n f ≡ 0 → (i : ℕ) → i < n → f i ≡ 0
unfolding sum
sum_none zero f e i h = elim h [ ]
sum_none (suc n) f e i h = elim (eq-cases i n) [
  | inl same ↦ rw same (omega arith)
  | inr ne ↦ sum_none n f (omega arith) i (omega arith)
]

abbrev pub length {ℓ} : {A : Type ℓ} → List A → ℕ
length [] = 0
length (x ∷ xs) = suc (length xs)

-- the calls of `Malloc` that succeed before the first that fails, in a list of their results
abbrev pub successes : List (Option ℕ) → ℕ
successes [] = 0
successes (none ∷ l) = 0
successes (some a ∷ l) = suc (successes l)
