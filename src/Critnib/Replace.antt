-- ===== src/Critnib/Replace.antt =====
-- A node whose child at one index is replaced.
use ptok.Base.{ℕ, ◌+◌, ◌*◌, ◌/◌, ◌^◌, ◌<◌, ◌≡◌, ◌≢◌, sym, ◌⊎◌, inl, inr, false}
use mathlib.Core.Path.{subst}
use ptok.Base.Arrays.{store, store_case, store_self, store_ne}
use ptok.Critnib.Tree.{Tree, is_null, slnodes}
use ptok.Critnib.Valid.{Holds, Below, IsNode, IsValid}

module _ (path shift : ℕ) (child : ℕ → Tree) (i : ℕ) (t : Tree) where
  -- The shape is kept if the new child fits its place and two children are there.
  pub store-IsNode_of_two :
      IsNode path shift child
      → ((k v : ℕ) → Holds t k v → k / 2 ^ shift ≡ 16 * (path / 2 ^ shift / 16) + i)
      → Below shift t
      → (x y : ℕ) → x < y
      → y < slnodes
      → is_null (store child i t x) ≡ false
      → is_null (store child i t y) ≡ false
      → IsNode path shift (store child i t)
  store-IsNode_of_two fit slot below x y lt last left right = record {
    bound = fit.bound;
    round = fit.round;
    fits = fit.fits;
    clear = fit.clear;
    slots = λ j p k v.
        store_case
          (λ x u. x < slnodes → Holds u k v → k / 2 ^ shift ≡ 16 * (path / 2 ^ shift / 16) + x)
          child i t (λ q. slot k v) (λ x ne q. fit.slots x q k v) j p;
    descends = λ j p.
        store_case (λ x u. x < slnodes → Below shift u) child i t (λ q. below)
          (λ x ne q. fit.descends x q) j p;
    two = (x, y, lt, last, left, right);
  }

  -- It is kept if the new child fits its place and is there.
  pub store-IsNode :
      IsNode path shift child
      → ((k v : ℕ) → Holds t k v → k / 2 ^ shift ≡ 16 * (path / 2 ^ shift / 16) + i)
      → Below shift t
      → is_null t ≡ false
      → IsNode path shift (store child i t)
  store-IsNode fit slot below there =
      let (x, y, lt, last, left, right) = fit.two in
      let still =
        store_case (λ x u. is_null (child x) ≡ false → is_null u ≡ false) child i t (λ q. there)
          (λ x ne q. q) in
      store-IsNode_of_two fit slot below x y lt last (still x left) (still y right)

  pub store-IsValid :
      ((j : ℕ) → j < slnodes → IsValid (child j))
      → IsValid t
      → (j : ℕ) → j < slnodes
      → IsValid (store child i t j)
  store-IsValid all new j =
      store_case (λ x u. x < slnodes → IsValid u) child i t (λ p. new) (λ x ne p. all x p) j

  -- what is held, apart from what the new child holds
  pub Holds-store :
      (k v j : ℕ) → Holds (store child i t j) k v → Holds t k v ⊎ ((j ≢ i) × Holds (child j) k v)
  Holds-store k v =
      store_case (λ x u. Holds u k v → Holds t k v ⊎ ((x ≢ i) × Holds (child x) k v)) child i t
        (λ m. inl m) (λ x ne m. inr (ne, m))

  pub store-Holds_new : (k v : ℕ) → Holds t k v → Holds (store child i t i) k v
  store-Holds_new k v m = subst (λ u. Holds u k v) (sym (store_self child i t)) m

  pub store-Holds_old : (k v j : ℕ) → j ≢ i → Holds (child j) k v → Holds (store child i t j) k v
  store-Holds_old k v j ne m = subst (λ u. Holds u k v) (sym (store_ne child i j t ne)) m
