-- ===== src/Critnib/Valid.antt =====
-- What a well-formed tree is, and what it holds: `Holds t k v` says that some leaf of `t`, found
-- by looking everywhere, has key `k` and value `v`.
use native.Mathlib.Nat.{mul-div_cancel_left, mul-le-mul_left, mul-div-le}
use ptok.Base.{
  ℕ, ◌+◌, ◌*◌, ◌/◌, ◌%◌, ◌^◌, ◌≤◌, ◌<◌, bit_and, ◌≡◌, refl, sym, ap, ◌∙◌, ◌↔◌, arith, true, false,
  ◌==◌, ==_iff,
}
use ptok.Word.{word}
use ptok.Word.Bits.{bit_and_nib}
use ptok.Word.Slices.{bit_and-path_mask, pow-pos}
use ptok.Critnib.Tree.{Tree, null, leaf, node, is_null, path_mask, slice_index, slnodes}

abbrev pub Holds : Tree → ℕ → ℕ → Type 0
Holds null k v = ⊥
Holds (leaf a j w) k v = (j ≡ k) × (w ≡ v)
Holds (node a path shift child) k v = (i : ℕ) × (i < slnodes) × Holds (child i) k v

-- A child has its slice further down.
abbrev pub Below : ℕ → Tree → Type 0
Below s null = Unit
Below s (leaf a k v) = Unit
Below s (node a path shift child) = shift < s

-- `path` is what the keys below have in common above the slice at `shift`, the child's index is
-- their slice, and at least two children are there.
pub record IsNode (path shift : ℕ) (child : ℕ → Tree) : Type 0 where
  pub bound : shift ≤ 60
  pub round : shift % 4 ≡ 0
  pub fits : path < word
  pub clear : path ≡ 2 ^ shift * (16 * (path / 2 ^ shift / 16))
  pub slots :
      (i : ℕ)
      → i < slnodes
      → (k v : ℕ) → Holds (child i) k v
      → k / 2 ^ shift ≡ 16 * (path / 2 ^ shift / 16) + i
  pub descends : (i : ℕ) → i < slnodes → Below shift (child i)
  pub two :
      (i : ℕ) × (j : ℕ) × (i < j)
      × (j < slnodes)
      × (is_null (child i) ≡ false)
      × (is_null (child j) ≡ false)

abbrev pub IsValid : Tree → Type 0
IsValid null = Unit
IsValid (leaf a k v) = k < word
IsValid (node a path shift child) =
    IsNode path shift child × ((i : ℕ) → i < slnodes → IsValid (child i))

-- Every key that is held is a word.
pub Holds-lt-word : (t : Tree) (k v : ℕ) → IsValid t → Holds t k v → k < word
Holds-lt-word null k v h m = absurd m
Holds-lt-word (leaf a j w) k v h m = omega arith
Holds-lt-word (node a path shift child) k v h m = Holds-lt-word (child m.0) k v (h.1 m.0 m.1) m.2

-- A tree that is not NULL holds something.
pub Holds-of_not_null : (t : Tree) → IsValid t → is_null t ≡ false → (k : ℕ) × (v : ℕ) × Holds t k v
Holds-of_not_null null h e = absurd (cc)
Holds-of_not_null (leaf a k v) h e = (k, v, (refl, refl))
Holds-of_not_null (node a path shift child) (fit, below) e =
    let (i, j, lt, last, left, right) = fit.two in
    let (k, v, m) = Holds-of_not_null (child j) (below j last) right in (k, v, (j, last, m))

pub slice_index_lem : (key shift : ℕ) → slice_index key shift ≡ key / 2 ^ shift % 16
unfolding slice_index
slice_index_lem key shift = bit_and_nib (key / 2 ^ shift)

pub slice_index-lt : (key shift : ℕ) → slice_index key shift < slnodes
slice_index-lt key shift = omega (arith, slice_index_lem key shift)

pub path_mask_lem :
    (key shift : ℕ)
    → key < word
    → shift ≤ 60
    → bit_and key (path_mask shift) ≡ 2 ^ shift * (16 * (key / 2 ^ shift / 16))
unfolding path_mask
path_mask_lem key shift = bit_and-path_mask key shift

pub path_mask-lt-word :
    (key shift : ℕ) → key < word → shift ≤ 60 → bit_and key (path_mask shift) < word
path_mask-lt-word key shift h p =
    let x = key / 2 ^ shift in
    let low : 16 * (x / 16) ≤ x = omega arith in
    omega (
      arith,
      path_mask_lem key shift h p,
      mul-le-mul_left (2 ^ shift) low,
      mul-div-le key (2 ^ shift),
    )

-- What a masked path says about its upper bits.
pub above_of_clear : (path shift x : ℕ) → path ≡ 2 ^ shift * (16 * x) → path / 2 ^ shift / 16 ≡ x
above_of_clear path shift x e =
    omega (arith, ap (λ (t : ℕ). t / 2 ^ shift) e, mul-div_cancel_left (16 * x) (pow-pos shift))

-- The walk goes on exactly where the key agrees with the path.
pub path_mask_iff :
    (key path shift : ℕ)
    → key < word
    → shift ≤ 60
    → path ≡ 2 ^ shift * (16 * (path / 2 ^ shift / 16))
    → ((bit_and key (path_mask shift) == path) ≡ true)
      ↔ (key / 2 ^ shift / 16 ≡ path / 2 ^ shift / 16)
path_mask_iff key path shift h p clear =
    let masked = path_mask_lem key shift h p in
    (
      λ e.
          sym
            (above_of_clear path shift (key / 2 ^ shift / 16) (sym ((==_iff _ path).0 e) ∙ masked)),
      λ e. (==_iff _ path).1 (masked ∙ ap (λ (t : ℕ). 2 ^ shift * (16 * t)) e ∙ sym clear),
    )
