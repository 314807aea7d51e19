-- ===== src/Critnib/Insert/Walk.antt =====
-- What the walk of `critnib_insert` does to a well-formed tree.
use ptok.Base.{
  ℕ, ◌+◌, ◌*◌, ◌/◌, ◌^◌, ◌<◌, bit_and, bit_xor, ◌≡◌, ◌≢◌, refl, sym, ap, ◌∙◌, ◌↔◌, ◌⊎◌, inl, inr,
  arith, false, ◌==◌, eq-cases, Bool-cases, Option, none, Option-cases,
}
use mathlib.Core.Path.{subst}
use native.Mathlib.Decide.{dec_lt}
use ptok.Base.Arrays.{store}
use ptok.Word.{word}
use ptok.Word.Slices.{split_shift, split_shift-Parts, above_mono, above_up, bit_xor_iff}
use ptok.Critnib.Tree.{Tree, null, leaf, node, is_null, path_mask, slice_index}
use ptok.Critnib.Valid.{Holds, Below, IsValid, slice_index_lem, slice_index-lt, path_mask_iff}
use ptok.Critnib.Replace.{
  store-IsNode, store-IsValid, Holds-store, store-Holds_new, store-Holds_old,
}
use ptok.Critnib.Insert.{Placed, linked, split, present, no_node, part, replace_child, insert_walk}
use ptok.Critnib.Insert.Split.{Extends, null-Extends, split_at-Extends}

-- The outcome of the walk with the leaf of `key` and `v`, where `fresh` is what `alloc_node` has.
abbrev pub Adds : Option ℕ → Tree → (key v : ℕ) → Placed → Type 0
Adds fresh t key v (linked t') = Extends t key v t'
Adds fresh t key v (split t') = Extends t key v t'
Adds fresh t key v present = (w : ℕ) × Holds t key w
Adds fresh t key v no_node = (fresh ≡ none) × ((w : ℕ) → ¬ Holds t key w)

module _ (fresh : Option ℕ) (a key v : ℕ) (in_word : key < word) where
  -- the two ways to come to `part`
  part-Adds :
      (path : ℕ) (n : Tree)
      → path < word
      → IsValid n
      → is_null n ≡ false
      → (path ≡ key → (w : ℕ) × Holds n key w)
      → (path ≢ key
          → ((k w : ℕ)
              → Holds n k w
              → k / 2 ^ split_shift (bit_xor path key) ≡ path / 2 ^ split_shift (bit_xor path key))
            × Below (split_shift (bit_xor path key)) n)
      → Adds fresh n key v (part fresh (leaf a key v) key path n)
  unfolding part
  part-Adds path n fits valid there same apart = elim (Bool-cases (bit_xor path key == 0)) [
    | inl e ↦ rw e (same ((bit_xor_iff path key).0 e))
    | inr e ↦
        let ne : path ≢ key = λ x. cc ((bit_xor_iff path key).1 x) in
        let (common, below) = apart ne in
        let extends =
          λ (m : ℕ). split_at-Extends m a key path v n in_word fits ne valid there common below in
        elim (Option-cases fresh) [
          | inl f ↦ rw (e, f) (refl, (extends 0).absent)
          | inr f ↦ rw (e, f.1) (extends f.0)
        ]
  ]

  leaf-Adds :
      (b k w : ℕ)
      → k < word
      → Adds fresh (leaf b k w) key v (part fresh (leaf a key v) key k (leaf b k w))
  leaf-Adds b k w fits =
      part-Adds k (leaf b k w) fits fits refl (λ e. (w, (e, refl)))
        (λ ne. (λ j x m. ap (λ (t : ℕ). t / 2 ^ split_shift (bit_xor k key)) (sym m.0), tt))

  node-Adds :
      (b path shift : ℕ) (child : ℕ → Tree)
      → IsValid (node b path shift child)
      → (key / 2 ^ shift / 16 ≢ path / 2 ^ shift / 16)
      → Adds fresh
          (node b path shift child)
          key
          v
          (part fresh (leaf a key v) key path (node b path shift child))
  node-Adds b path shift child valid off =
      part-Adds path (node b path shift child) fit.fits valid refl
        (λ e. absurd (off (ap (λ (t : ℕ). t / 2 ^ shift / 16) (sym e)))) apart
    where
      open valid use {0 as fit}

      apart :
          path ≢ key
          → ((k w : ℕ)
              → Holds (node b path shift child) k w
              → k / 2 ^ split_shift (bit_xor path key) ≡ path / 2 ^ split_shift (bit_xor path key))
            × Below (split_shift (bit_xor path key)) (node b path shift child)
      apart ne =
          let sh = split_shift (bit_xor path key) in
          let parts = split_shift-Parts path key fit.fits in_word ne in
          let deeper : shift < sh = elim (dec_lt shift sh) [
            | yes lt ↦ lt
            | no ge ↦ absurd (off (sym (above_up path key sh shift (omega arith) parts.above)))
          ] in
          (
            λ k w m.
                above_mono k path shift sh (omega (arith, fit.round, parts.round))
                  (omega (arith, fit.slots m.0 m.1 k w m.2)),
            deeper,
          )

  -- The walk has gone on below the child at `i`, which has the key's slice.
  module _ (b path shift : ℕ) (child : ℕ → Tree) (valid : IsValid (node b path shift child))
      (on : key / 2 ^ shift / 16 ≡ path / 2 ^ shift / 16) where
    abbrev i : ℕ
    i = slice_index key shift

    own_slot : key / 2 ^ shift ≡ 16 * (path / 2 ^ shift / 16) + i
    own_slot = omega (arith, slice_index_lem key shift)

    -- an entry of the new child has the key's slice
    new_slot :
        (t' : Tree)
        → Extends (child i) key v t'
        → (k w : ℕ) → Holds t' k w
        → k / 2 ^ shift ≡ 16 * (path / 2 ^ shift / 16) + i
    new_slot t' e k w m = elim ((e.entries k w).0 m) [
      | inl old ↦ valid.0.slots i (slice_index-lt key shift) k w old
      | inr new ↦ ap (λ (t : ℕ). t / 2 ^ shift) new.0 ∙ own_slot
    ]

    child-entries :
        (t' : Tree)
        → Extends (child i) key v t'
        → (k w : ℕ)
        → Holds (node b path shift (store child i t')) k w
          ↔ (Holds (node b path shift child) k w ⊎ ((k ≡ key) × (w ≡ v)))
    child-entries t' e k w = (
      λ m. elim (Holds-store path shift child i t' k w m.0 m.2) [
        | inl new ↦ elim ((e.entries k w).0 new) [
          | inl old ↦ inl (i, slice_index-lt key shift, old)
          | inr own ↦ inr own
        ]
        | inr old ↦ inl (m.0, m.1, old.1)
      ],
      λ m. elim m [
        | inl old ↦ elim (eq-cases old.0 i) [
          | inl same ↦ (
            i,
            slice_index-lt key shift,
            store-Holds_new path shift child i t' k w
                ((e.entries k w).1 (inl (subst (λ x. Holds (child x) k w) same old.2))),
          )
          | inr ne ↦ (old.0, old.1, store-Holds_old path shift child i t' k w old.0 ne old.2)
        ]
        | inr own ↦ (
          i,
          slice_index-lt key shift,
          store-Holds_new path shift child i t' k w ((e.entries k w).1 (inr own)),
        )
      ],
    )

    -- a key of this node that has the key's slice stands below the child at `i`
    Holds-child : (w : ℕ) → Holds (node b path shift child) key w → Holds (child i) key w
    Holds-child w m =
        subst (λ x. Holds (child x) key w)
          (omega (arith, valid.0.slots m.0 m.1 key w m.2, own_slot)) m.2

    child-Extends :
        (t' : Tree)
        → Extends (child i) key v t'
        → Extends (node b path shift child) key v (node b path shift (store child i t'))
    child-Extends t' e =
        let lt = slice_index-lt key shift in
        let fit = valid.0 in
        let below : Below shift t' =
          e.descends shift (fit.descends i lt) (λ k w m. new_slot t' e k w m ∙ sym own_slot) in
        record {
          valid = (
            store-IsNode path shift child i t' fit (new_slot t' e) below e.not_null,
            store-IsValid path shift child i t' valid.1 e.valid,
          );
          not_null = refl;
          entries = child-entries t' e;
          absent = λ w m. e.absent w (Holds-child w m);
          descends = λ s below same. below;
        }

    replace_child-Adds :
        (r : Placed)
        → Adds fresh (child i) key v r
        → Adds fresh (node b path shift child) key v (replace_child b path shift child i r)
    replace_child-Adds (linked t') e = child-Extends t' e
    replace_child-Adds (split t') e = child-Extends t' e
    replace_child-Adds present e = (e.0, (i, slice_index-lt key shift, e.1))
    replace_child-Adds no_node e = (e.0, λ w m. e.1 w (Holds-child w m))

  -- The walk adds the leaf to every well-formed tree that lacks the key, if there is memory.
  pub insert_walk-Adds :
      (t : Tree) → IsValid t → Adds fresh t key v (insert_walk fresh (leaf a key v) key t)
  unfolding insert_walk
  insert_walk-Adds null valid = null-Extends a key v in_word
  insert_walk-Adds (leaf b k w) valid = leaf-Adds b k w valid
  insert_walk-Adds (node b path shift child) valid =
      let fit = valid.0 in
      let test = path_mask_iff key path shift in_word fit.bound fit.clear in
      elim (Bool-cases (bit_and key (path_mask shift) == path)) [
        | inl on ↦ rw on (
            replace_child-Adds b path shift child valid (test.0 on)
              (insert_walk fresh (leaf a key v) key (child (slice_index key shift)))
              (insert_walk-Adds (child (slice_index key shift))
                (valid.1 (slice_index key shift) (slice_index-lt key shift))))
        | inr off ↦ rw off (node-Adds b path shift child valid (λ e. cc (test.1 e)))
      ]
