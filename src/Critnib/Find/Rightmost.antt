-- ===== src/Critnib/Find/Rightmost.antt =====
-- The last child of a node, and the rightmost entry that `find_successor` ends at.
use ptok.Base.{
  ℕ, zero, suc, ◌≤◌, ◌<◌, ◌≡◌, refl, arith, true, false, Bool-cases, eq-cases, inl, inr, Option,
  none, some,
}
use mathlib.Core.Path.{subst}
use native.Mathlib.Decide.{dec_lt}
use ptok.Word.Slices.{lt_of_div-pow}
use ptok.Critnib.Tree.{Tree, null, leaf, node, is_null, slnodes}
use ptok.Critnib.Valid.{Holds, IsValid, IsNode}
use ptok.Critnib.Find.{last_child, find_successor}

-- the last child below `n`, if there is one
pub data Last (n : ℕ) (child : ℕ → Tree) : Option ℕ → Type 0 where
  no_child : ((i : ℕ) → i < n → is_null (child i) ≡ true) → Last n child none
  last :
      (i : ℕ)
      → i < n
      → is_null (child i) ≡ false
      → ((j : ℕ) → j < n → i < j → is_null (child j) ≡ true)
      → Last n child (some i)

Last-next :
    (n : ℕ) (child : ℕ → Tree) (o : Option ℕ)
    → is_null (child n) ≡ true
    → Last n child o
    → Last (suc n) child o
Last-next n child none e (no_child h) =
    no_child (λ i p. elim (eq-cases i n) [ inl x ↦ rw x e | inr ne ↦ h i (omega arith) ])
Last-next n child o e (last i p there rest) =
    last i (omega arith) there
      (λ j q lt. elim (eq-cases j n) [ inl x ↦ rw x e | inr ne ↦ rest j (omega arith) lt ])

pub last_child-Last : (n : ℕ) (child : ℕ → Tree) → Last n child (last_child n child)
unfolding last_child
last_child-Last zero child = no_child (λ i p. elim p [ ])
last_child-Last (suc n) child = elim (Bool-cases (is_null (child n))) [
  | inl e ↦ rw e (Last-next n child (last_child n child) e (last_child-Last n child))
  | inr e ↦ rw e (last n (omega arith) e (λ j p q. absurd (omega arith)))
]

-- NULL holds nothing.
pub Holds-null : (t : Tree) (k v : ℕ) → is_null t ≡ true → ¬ Holds t k v
Holds-null null k v e m = m
Holds-null (leaf a j w) k v e m = absurd (cc)
Holds-null (node a path shift child) k v e m = absurd (cc)

-- no value but that of key 0 is NULL
abbrev pub NullAtZero : Tree → Type 0
NullAtZero t = (k v : ℕ) → Holds t k v → v ≡ 0 → k ≡ 0

-- the value of the greatest key
pub record Greatest (t : Tree) (v : ℕ) : Type 0 where
  pub key : ℕ
  pub held : Holds t key v
  pub above : (k w : ℕ) → Holds t k w → k ≤ key

-- Keys below a child to the left are smaller.
pub left_of :
    (path shift : ℕ) (child : ℕ → Tree)
    → IsNode path shift child
    → (i j k l v w : ℕ) → i < slnodes
    → j < i
    → Holds (child i) k v
    → Holds (child j) l w
    → l < k
left_of path shift child fit i j k l v w p q m n =
    lt_of_div-pow l k shift (omega (arith, fit.slots i p k v m, fit.slots j (omega arith) l w n))

-- the greatest entry below the last child before `n` is the greatest before `n`
pub Greatest-left :
    (path shift : ℕ) (child : ℕ → Tree)
    → IsNode path shift child
    → (n i v : ℕ) → n ≤ slnodes
    → i < n
    → ((j : ℕ) → j < n → i < j → is_null (child j) ≡ true)
    → (g : Greatest (child i) v) → (j k w : ℕ) → j < n
    → Holds (child j) k w
    → k ≤ g.key
Greatest-left path shift child fit n i v small p rest g j k w q m = elim (dec_lt j i) [
  | yes lt ↦ omega (arith, left_of path shift child fit i j g.key k v w (omega arith) lt g.held m)
  | no ge ↦ elim (eq-cases j i) [
    | inl same ↦ g.above k w (subst (λ x. Holds (child x) k w) same m)
    | inr ne ↦ absurd (Holds-null (child j) k w (rest j q (omega arith)) m)
  ]
]

module _ (a path shift : ℕ) (child : ℕ → Tree) (valid : IsValid (node a path shift child)) where
  -- the choice of the last child and what follows it
  Last-Greatest :
      ((i : ℕ)
        → i < slnodes
        → is_null (child i) ≡ false
        → Greatest (child i) (find_successor (child i)))
      → (o : Option ℕ) → Last slnodes child o
      → Greatest (node a path shift child) (elim o [ none ↦ 0 | some i ↦ find_successor (child i) ])
  Last-Greatest below none (no_child h) =
      let (i, j, lt, end, left, right) = valid.0.two in absurd (cc (h j end))
  Last-Greatest below o (last i p there rest) =
      let g = below i p there in
      record {
        key = g.key;
        held = (i, p, g.held);
        above = λ k w m.
            Greatest-left path shift child valid.0 slnodes i (find_successor (child i))
              (omega arith) p rest g m.0 k w m.1 m.2;
      }

pub find_successor-Greatest :
    (t : Tree) → IsValid t → is_null t ≡ false → Greatest t (find_successor t)
unfolding find_successor
find_successor-Greatest null valid e = absurd (cc)
find_successor-Greatest (leaf a k v) valid e = record {
  key = k;
  held = (refl, refl);
  above = λ j w m. omega arith;
}
find_successor-Greatest (node a path shift child) valid e =
    Last-Greatest a path shift child valid
      (λ i p there. find_successor-Greatest (child i) (valid.1 i p) there)
      (last_child slnodes child) (last_child-Last slnodes child)
