-- ===== src/Critnib/Shared/Reads.antt =====
-- What a dive from where a reader stands would find. `L s` says on which addresses a reader that
-- has loaded the count `s` may rely.
use ptok.Base.{ℕ, zero, suc, ◌≡◌, refl, true, false, ◌==◌}
use mathlib.Core.Path.{subst}
use ptok.Critnib.Shared.{Pointer, nil, to_leaf, to_node, Cell, Memory, next, found, Reaches}

abbrev pub Reach : (ℕ → Cell) → (ℕ → Type 0) → (key : ℕ) → Pointer → ℕ → Type 0
Reach h L key p r = (f : ℕ) × Reaches f h L key p r

module _ (key : ℕ) (P : ℕ → Type 0) where
  -- What a dive from the pointer, undisturbed, would return is acceptable.
  abbrev pub Finds : (ℕ → Cell) → (ℕ → Type 0) → Pointer → Type 0
  Finds h L p = (r : ℕ) × Reach h L key p r × P r

  module _ (m : Memory) (L : ℕ → ℕ → Type 0) where
    pub nil-Finds : (s : ℕ) → Finds m.cell (L s) nil → P 0
    nil-Finds s (r, (zero, h), p) = absurd h
    nil-Finds s (r, (suc f, h), p) = subst P h p

    pub leaf-Finds : (s a : ℕ) → Finds m.cell (L s) (to_leaf a) → L s a × P (found key (m.cell a))
    leaf-Finds s a (r, (zero, h), p) = absurd h
    leaf-Finds s a (r, (suc f, h), p) = (h.0, subst P h.1 p)

    pub node-Finds :
        (s a : ℕ) → Finds m.cell (L s) (to_node a) → Finds m.cell (L s) (next key (m.cell a))
    node-Finds s a (r, (zero, h), p) = absurd h
    node-Finds s a (r, (suc f, h), p) = (r, (f, h.1), p)

    pub found_match :
        (a : ℕ) → ((m.cell a).key == key) ≡ true → found key (m.cell a) ≡ (m.cell a).value
    found_match a e = rw e refl

    pub found_other : (a : ℕ) → ((m.cell a).key == key) ≡ false → found key (m.cell a) ≡ 0
    found_other a e = rw e refl
