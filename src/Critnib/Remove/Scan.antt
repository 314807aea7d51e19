-- ===== src/Critnib/Remove/Scan.antt =====
-- The loop of `critnib_remove` that looks for a second child.
use ptok.Base.{
  ℕ, zero, suc, ◌+◌, ◌<◌, ◌≡◌, ◌≢◌, arith, true, false, Option, none, some, Bool-cases, eq-cases,
  inl, inr,
}
use ptok.Critnib.Tree.{Tree, is_null}
use ptok.Critnib.Remove.{Children, nothing, one, many, scan_children}

-- what the answer says of the children below `n`
pub data Scanned (n : ℕ) (child : ℕ → Tree) : Children → Type 0 where
  none_there : ((j : ℕ) → j < n → is_null (child j) ≡ true) → Scanned n child nothing
  one_there :
      (o : ℕ)
      → o < n
      → is_null (child o) ≡ false
      → ((j : ℕ) → j < n → j ≢ o → is_null (child j) ≡ true)
      → Scanned n child (one o)
  many_there :
      (i j : ℕ)
      → i < j
      → j < n
      → is_null (child i) ≡ false
      → is_null (child j) ≡ false
      → Scanned n child many

-- what `ochild` says of the children that the loop has passed
abbrev Seen : ℕ → (ℕ → Tree) → Option ℕ → Type 0
Seen i child none = (j : ℕ) → j < i → is_null (child j) ≡ true
Seen i child (some o) =
    (o < i) × (is_null (child o) ≡ false) × ((j : ℕ) → j < i → j ≢ o → is_null (child j) ≡ true)

scan_from :
    (left i n : ℕ) (child : ℕ → Tree) (o : Option ℕ)
    → n ≡ i + left
    → Seen i child o
    → Scanned n child (scan_children left i child o)
unfolding scan_children
scan_from zero i n child none e seen = none_there (λ j p. seen j (omega arith))
scan_from zero i n child (some o) e seen =
    one_there o (omega (arith, seen.0)) seen.1 (λ j p. seen.2 j (omega arith))
scan_from (suc left) i n child none e seen = elim (Bool-cases (is_null (child i))) [
  | inl h ↦ rw h (
      scan_from left (suc i) n child none (omega arith)
        (λ j p. elim (eq-cases j i) [ inl x ↦ rw x h | inr ne ↦ seen j (omega arith) ]))
  | inr h ↦ rw h (
      scan_from left (suc i) n child (some i) (omega arith)
        (omega arith, h, λ j p ne. seen j (omega arith)))
]
scan_from (suc left) i n child (some o) e seen = elim (Bool-cases (is_null (child i))) [
  | inl h ↦ rw h (
      scan_from left (suc i) n child (some o) (omega arith) (
        omega (arith, seen.0),
        seen.1,
        λ j p ne. elim (eq-cases j i) [ inl x ↦ rw x h | inr other ↦ seen.2 j (omega arith) ne ],
      ))
  | inr h ↦ rw h (many_there o i seen.0 (omega arith) seen.1 h)
]

pub scan_children-Scanned :
    (n : ℕ) (child : ℕ → Tree) → Scanned n child (scan_children n 0 child none)
scan_children-Scanned n child = scan_from n 0 n child none (omega arith) (λ j p. elim p [ ])
