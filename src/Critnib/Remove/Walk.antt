-- ===== src/Critnib/Remove/Walk.antt =====
-- What the walk of `critnib_remove` does to a well-formed tree.
use ptok.Base.{
  ℕ, ◌/◌, ◌^◌, ◌<◌, ◌≡◌, ◌≢◌, refl, sym, ap, ◌∙◌, ◌↔◌, inl, inr, arith, true, false, ◌==◌, ==_iff,
  eq-cases, Bool-cases, none,
}
use mathlib.Core.Path.{subst}
use ptok.Base.Arrays.{store, store_case}
use ptok.Critnib.Tree.{Tree, null, leaf, node, is_null, slice_index, slnodes}
use ptok.Critnib.Valid.{Holds, Below, IsValid, slice_index_lem, slice_index-lt}
use ptok.Critnib.Replace.{
  store-IsNode, store-IsNode_of_two, store-IsValid, Holds-store, store-Holds_new, store-Holds_old,
}
use ptok.Critnib.Find.Rightmost.{Holds-null}
use ptok.Critnib.Find.Get.{Holds-slice}
use ptok.Critnib.Remove.{
  Children, nothing, scan_children, Unlinked, missing, here, unlinked, fault, collapse, after_child,
  remove_walk,
}
use ptok.Critnib.Remove.Scan.{Scanned, none_there, one_there, many_there, scan_children-Scanned}

-- `t'` is `t` without the entry of `key`, and is still there.
pub record Shrinks (t : Tree) (key v : ℕ) (t' : Tree) : Type 0 where
  pub valid : IsValid t'
  pub not_null : is_null t' ≡ false
  pub held : Holds t key v
  pub entries : (k w : ℕ) → Holds t' k w ↔ (Holds t k w × (k ≢ key))
  pub descends : (s : ℕ) → Below s t → Below s t'

abbrev pub Drops : Tree → (key : ℕ) → Unlinked → Type 0
Drops t key missing = (w : ℕ) → ¬ Holds t key w
Drops t key (here k v) = (j w : ℕ) → Holds t j w ↔ ((key ≡ j) × (v ≡ w))
Drops t key (unlinked v k n t') = Shrinks t key v t'
Drops t key fault = ⊥

Below-trans : (s u : ℕ) (t : Tree) → s < u → Below s t → Below u t
Below-trans s u null lt b = tt
Below-trans s u (leaf a k v) lt b = tt
Below-trans s u (node a path shift child) lt b = omega arith

module _ (b path shift : ℕ) (child : ℕ → Tree) (key : ℕ)
    (valid : IsValid (node b path shift child)) where
  abbrev i : ℕ
  i = slice_index key shift

  fits : i < slnodes
  fits = slice_index-lt key shift

  -- an entry of another child has another key
  other_key : (j k w : ℕ) → j < slnodes → j ≢ i → Holds (child j) k w → k ≢ key
  other_key j k w p ne m e = ne (
      omega (
        arith,
        valid.0.slots j p k w m,
        ap (λ (t : ℕ). t / 2 ^ shift) e,
        slice_index_lem key shift,
      ))

  -- the entries of the node with the child at `i` replaced by one without the key
  replaced_entries :
      (t' : Tree)
      → ((k w : ℕ) → Holds t' k w ↔ (Holds (child i) k w × (k ≢ key)))
      → (k w : ℕ)
      → Holds (node b path shift (store child i t')) k w
        ↔ (Holds (node b path shift child) k w × (k ≢ key))
  replaced_entries t' e k w = (
    λ m. elim (Holds-store path shift child i t' k w m.0 m.2) [
      | inl new ↦ let (old, ne) = (e k w).0 new in ((i, fits, old), ne)
      | inr old ↦ ((m.0, m.1, old.1), other_key m.0 k w m.1 old.0 old.1)
    ],
    λ m. elim (eq-cases m.0.0 i) [
      | inl same ↦ (
        i,
        fits,
        store-Holds_new path shift child i t' k w
            ((e k w).1 (subst (λ x. Holds (child x) k w) same m.0.2, m.1)),
      )
      | inr ne ↦ (m.0.0, m.0.1, store-Holds_old path shift child i t' k w m.0.0 ne m.0.2)
    ],
  )

  unlinked-Shrinks :
      (v : ℕ) (t' : Tree)
      → Shrinks (child i) key v t'
      → Shrinks (node b path shift child) key v (node b path shift (store child i t'))
  unlinked-Shrinks v t' s = record {
    valid = (
      store-IsNode path shift child i t' valid.0
          (λ k w m. valid.0.slots i fits k w ((s.entries k w).0 m).0)
          (s.descends shift (valid.0.descends i fits)) s.not_null,
      store-IsValid path shift child i t' valid.1 s.valid,
    );
    not_null = refl;
    held = (i, fits, s.held);
    entries = replaced_entries t' s.entries;
    descends = λ u below. below;
  }

  -- the child at `i` is the leaf of the key
  module _ (v : ℕ) (own : (j w : ℕ) → Holds (child i) j w ↔ ((key ≡ j) × (v ≡ w))) where
    abbrev rest : ℕ → Tree
    rest = store child i null

    rest_entries :
        (k w : ℕ)
        → Holds (node b path shift rest) k w ↔ (Holds (node b path shift child) k w × (k ≢ key))
    rest_entries =
        replaced_entries null λ k w. (λ m. absurd m, λ m. absurd (m.1 (sym ((own k w).0 m.0).0)))

    key_held : Holds (node b path shift child) key v
    key_held = (i, fits, (own key v).1 (refl, refl))

    -- a child that is left was there before
    rest_there : (j : ℕ) → is_null (rest j) ≡ false → (j ≢ i) × (rest j ≡ child j)
    rest_there =
        store_case (λ j u. is_null u ≡ false → (j ≢ i) × (u ≡ child j)) child i null
          (λ e. absurd (cc)) (λ j ne e. (ne, refl))

    -- of two children one is left
    nothing_left : ¬ ((j : ℕ) → j < slnodes → is_null (rest j) ≡ true)
    nothing_left h =
        let (x, y, lt, last, left, right) = valid.0.two in
        let still =
          store_case (λ j u. j ≢ i → is_null (child j) ≡ false → is_null u ≡ false) child i null
            (λ ne e. absurd (ne refl)) (λ j ne other e. e) in
        elim (eq-cases x i) [
          | inl e ↦ absurd (cc (h y last, still y (omega arith) right))
          | inr ne ↦ absurd (cc (h x (omega arith), still x ne left))
        ]

    many-Shrinks :
        (x y : ℕ)
        → x < y
        → y < slnodes
        → is_null (rest x) ≡ false
        → is_null (rest y) ≡ false
        → Shrinks (node b path shift child) key v (node b path shift rest)
    many-Shrinks x y lt p ex ey = record {
      valid = (
        store-IsNode_of_two path shift child i null valid.0 (λ k w m. absurd m) tt x y lt p ex ey,
        store-IsValid path shift child i null valid.1 tt,
      );
      not_null = refl;
      held = key_held;
      entries = rest_entries;
      descends = λ u below. below;
    }

    one-Shrinks :
        (o : ℕ)
        → o < slnodes
        → is_null (rest o) ≡ false
        → ((j : ℕ) → j < slnodes → j ≢ o → is_null (rest j) ≡ true)
        → Shrinks (node b path shift child) key v (rest o)
    one-Shrinks o p there alone =
        let (ne, same) = rest_there o there in
        record {
          valid = subst IsValid (sym same) (valid.1 o p);
          not_null = there;
          held = key_held;
          entries = λ k w. (
            λ m. (rest_entries k w).0 (o, p, m),
            λ h.
                let (j, q, m) = (rest_entries k w).1 h in
                elim (eq-cases j o) [
                  | inl e ↦ subst (λ x. Holds (rest x) k w) e m
                  | inr other ↦ absurd (Holds-null (rest j) k w (alone j q other) m)
                ],
          );
          descends = λ s below.
              Below-trans shift s (rest o) below
                (subst (Below shift) (sym same) (valid.0.descends o p));
        }

    -- the node loses the leaf, and goes too if one child is left
    collapse-Drops :
        (k : ℕ) (c : Children)
        → Scanned slnodes rest c
        → Drops (node b path shift child) key (collapse b path shift rest k v c)
    unfolding collapse
    collapse-Drops k nothing (none_there h) = absurd (nothing_left h)
    collapse-Drops k c (one_there o p there alone) = one-Shrinks o p there alone
    collapse-Drops k c (many_there x y lt p ex ey) = many-Shrinks x y lt p ex ey

  after_child-Drops :
      (r : Unlinked)
      → Drops (child i) key r
      → Drops (node b path shift child) key (after_child b path shift child i r)
  unfolding after_child
  after_child-Drops missing d = λ w m. d w (Holds-slice b path shift child key w valid m)
  after_child-Drops (here k v) d =
      collapse-Drops v d k (scan_children slnodes 0 (store child i null) none)
        (scan_children-Scanned slnodes (store child i null))
  after_child-Drops (unlinked v k n t') d = unlinked-Shrinks v t' d
  after_child-Drops fault d = d

-- The walk finds the key's leaf exactly if it is there, and takes out that entry alone. It never
-- reads `child[-1]`.
pub remove_walk-Drops : (t : Tree) (key : ℕ) → IsValid t → Drops t key (remove_walk key t)
unfolding remove_walk
remove_walk-Drops null key valid = λ w m. m
remove_walk-Drops (leaf a k v) key valid = elim (Bool-cases (k == key)) [
  | inl e ↦
      let same : k ≡ key = (==_iff k key).0 e in
      rw e (λ j w. (λ m. (sym same ∙ m.0, m.1), λ m. (same ∙ m.0, m.1)))
  | inr e ↦ rw e (λ w m. cc ((==_iff k key).1 m.0))
]
remove_walk-Drops (node b path shift child) key valid =
    after_child-Drops b path shift child key valid (remove_walk key (child (slice_index key shift)))
      (remove_walk-Drops (child (slice_index key shift)) key
        (valid.1 (slice_index key shift) (slice_index-lt key shift)))
