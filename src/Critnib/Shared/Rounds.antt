-- ===== src/Critnib/Shared/Rounds.antt =====
-- A round of `critnib_get`, load by load, in memory that does not change: that it ends.
use ptok.Base.{
  ℕ, zero, suc, ◌+◌, ◌%◌, ◌<◌, ◌≡◌, refl, sym, ap, ◌∙◌, arith, inl, inr, Bool-cases, leb, ◌==◌,
  false,
}
use ptok.Word.{word}
use ptok.Critnib.Tree.{deleted_life}
use ptok.Critnib.Shared.{
  Pointer, nil, to_leaf, to_node, Memory, Reader, start, counted, diving, matched, checking,
  returned, next, load, loads, Reaches,
}

loads-loads :
    (key : ℕ) (m : Memory) (a b : ℕ) (r : Reader)
    → loads key b m (loads key a m r) ≡ loads key (a + b) m r
unfolding loads
loads-loads key m zero b r = (let e : b ≡ zero + b = omega arith in ap (λ n. loads key n m r) e)
loads-loads key m (suc a) b r =
    let e : suc (a + b) ≡ suc a + b = omega arith in
    loads-loads key m a b (load key m r) ∙ ap (λ n. loads key n m r) e

loads-returned : (key : ℕ) (m : Memory) (n v : ℕ) → loads key n m (returned v) ≡ returned v
unfolding loads load
loads-returned key m zero v = refl
loads-returned key m (suc n) v = loads-returned key m n v

-- After some loads the reader is at `r'`.
abbrev pub Gets : (key : ℕ) → Memory → Reader → Reader → Type 0
Gets key m r r' = (n : ℕ) × (loads key n m r ≡ r')

module _ (key : ℕ) (m : Memory) where
  pub Gets-trans : (r r1 r2 : Reader) → Gets key m r r1 → Gets key m r1 r2 → Gets key m r r2
  Gets-trans r r1 r2 (a, e) (b, f) =
      (a + b, sym (loads-loads key m a b r) ∙ ap (loads key b m) e ∙ f)

  pub Gets-one : (r r' : Reader) → load key m r ≡ r' → Gets key m r r'
  unfolding loads
  Gets-one r r' e = (1, e)

  leaf-Gets : (s a : ℕ) → (v : ℕ) × Gets key m (diving s (to_leaf a)) (checking s v)
  unfolding load
  leaf-Gets s a = elim (Bool-cases ((m.cell a).key == key)) [
    | inl e ↦ (
      (m.cell a).value,
      Gets-trans (diving s (to_leaf a)) (matched s a) (checking s (m.cell a).value)
          (Gets-one (diving s (to_leaf a)) (matched s a) (rw e refl))
          (Gets-one (matched s a) (checking s (m.cell a).value) refl),
    )
    | inr e ↦ (0, Gets-one (diving s (to_leaf a)) (checking s 0) (rw e refl))
  ]

  -- a dive that ends if nothing is stored any more
  pub dive-Gets :
      (f : ℕ) (L : ℕ → Type 0) (s : ℕ) (p : Pointer) (r : ℕ)
      → Reaches f m.cell L key p r
      → (v : ℕ) × Gets key m (diving s p) (checking s v)
  unfolding load
  dive-Gets zero L s p r d = absurd d
  dive-Gets (suc f) L s nil r d = (0, Gets-one (diving s nil) (checking s 0) refl)
  dive-Gets (suc f) L s (to_leaf a) r d = leaf-Gets s a
  dive-Gets (suc f) L s (to_node a) r d =
      let (v, g) = dive-Gets f L s (next key (m.cell a)) r d.1 in
      (
        v,
        Gets-trans (diving s (to_node a)) (diving s (next key (m.cell a))) (checking s v)
            (Gets-one (diving s (to_node a)) (diving s (next key (m.cell a))) refl) g,
      )

  -- the whole round
  pub start-Gets :
      (L : ℕ → Type 0) (r f : ℕ)
      → Reaches f m.cell L key m.root r
      → m.remove_count + deleted_life < word
      → (v : ℕ) × Gets key m start (returned v)
  unfolding load
  start-Gets L r f d no_wrap =
      let s = m.remove_count in
      let (v, g) = dive-Gets f L s m.root r d in
      let ends : leb ((s + deleted_life) % word) s ≡ false = ground arith in
      (
        v,
        Gets-trans start (counted s) (returned v) (Gets-one start (counted s) refl) (
            Gets-trans (counted s) (diving s m.root) (returned v)
              (Gets-one (counted s) (diving s m.root) refl)
              (Gets-trans (diving s m.root) (checking s v) (returned v) g
                (Gets-one (checking s v) (returned v) (rw ends refl)))),
      )
