-- ===== src/Critnib/Insert/Split.antt =====
-- The node that `critnib_insert` makes where the new key parts from what is there.
use ptok.Base.{
  ℕ, ◌+◌, ◌*◌, ◌/◌, ◌^◌, ◌<◌, bit_and, bit_xor, ◌≡◌, ◌≢◌, refl, sym, ap, ◌∙◌, ◌↔◌, ◌⊎◌, inl, inr,
  arith, false,
}
use mathlib.Core.Path.{subst}
use native.Mathlib.Decide.{dec_lt}
use ptok.Base.Arrays.{store, store_case, store_self, store_ne}
use ptok.Word.{word}
use ptok.Word.Slices.{split_shift, split_shift-Parts, Parts, div-pow_mono}
use ptok.Critnib.Tree.{Tree, null, leaf, is_null, path_mask, slice_index, slnodes}
use ptok.Critnib.Valid.{
  Holds, Below, IsNode, IsValid, Holds-of_not_null, slice_index_lem, slice_index-lt, path_mask_lem,
  above_of_clear, path_mask-lt-word,
}
use ptok.Critnib.Insert.{split_at}

-- `t'` is `t` with one more leaf, of a key that `t` does not hold.
pub record Extends (t : Tree) (key v : ℕ) (t' : Tree) : Type 0 where
  pub valid : IsValid t'
  pub not_null : is_null t' ≡ false
  pub entries : (k w : ℕ) → Holds t' k w ↔ (Holds t k w ⊎ ((k ≡ key) × (w ≡ v)))
  pub absent : (w : ℕ) → ¬ Holds t key w
  pub descends :
      (s : ℕ) → Below s t → ((k w : ℕ) → Holds t' k w → k / 2 ^ s ≡ key / 2 ^ s) → Below s t'

-- an empty place takes the leaf
pub null-Extends : (a key v : ℕ) → key < word → Extends null key v (leaf a key v)
null-Extends a key v h = record {
  valid = h;
  not_null = refl;
  entries = λ k w.
      (λ m. inr (sym m.0, sym m.1), λ m. elim m [ inl x ↦ absurd x | inr e ↦ (sym e.0, sym e.1) ]);
  absent = λ w m. m;
  descends = λ s b f. tt;
}

-- `n` is what is there, and `path` what its keys have in common down to the slice at which the
-- new key parts from them.
module _ (m a key path v : ℕ) (n : Tree) (in_word : key < word) (path_in_word : path < word)
    (ne : path ≢ key) (valid : IsValid n) (there : is_null n ≡ false)
    (common : (k w : ℕ)
      → Holds n k w
      → k / 2 ^ split_shift (bit_xor path key) ≡ path / 2 ^ split_shift (bit_xor path key))
    (below : Below (split_shift (bit_xor path key)) n) where
  abbrev sh : ℕ
  sh = split_shift (bit_xor path key)

  parts : Parts path key sh
  parts = split_shift-Parts path key path_in_word in_word ne

  abbrev new_child : ℕ → Tree
  new_child = store (λ _. null) (slice_index key sh) (leaf a key v)

  abbrev child : ℕ → Tree
  child = store new_child (slice_index path sh) n

  slices_differ : slice_index key sh ≢ slice_index path sh
  slices_differ e =
      parts.apart (omega (arith, parts.above, e, slice_index_lem key sh, slice_index_lem path sh))

  at_path : child (slice_index path sh) ≡ n
  at_path = store_self new_child (slice_index path sh) n

  at_key : child (slice_index key sh) ≡ leaf a key v
  at_key =
      store_ne new_child (slice_index path sh) (slice_index key sh) n slices_differ
      ∙ store_self (λ _. null) (slice_index key sh) (leaf a key v)

  -- a property of every child from that of the two and of NULL
  child_case {ℓ} :
      (P : ℕ → Tree → Type ℓ)
      → P (slice_index path sh) n
      → P (slice_index key sh) (leaf a key v)
      → ((i : ℕ) → P i null)
      → (i : ℕ) → P i (child i)
  child_case P old new rest =
      store_case P new_child (slice_index path sh) n old
        λ j _. store_case P (λ _. null) (slice_index key sh) (leaf a key v) new (λ i _. rest i) j

  abbrev prefix : ℕ
  prefix = bit_and key (path_mask sh)

  prefix_clear : prefix ≡ 2 ^ sh * (16 * (key / 2 ^ sh / 16))
  prefix_clear = path_mask_lem key sh in_word parts.bound

  prefix_above : prefix / 2 ^ sh / 16 ≡ key / 2 ^ sh / 16
  prefix_above = above_of_clear prefix sh (key / 2 ^ sh / 16) prefix_clear

  slots :
      (i : ℕ)
      → i < slnodes
      → (k w : ℕ) → Holds (child i) k w
      → k / 2 ^ sh ≡ 16 * (prefix / 2 ^ sh / 16) + i
  slots i p k w =
      child_case (λ j t. Holds t k w → k / 2 ^ sh ≡ 16 * (prefix / 2 ^ sh / 16) + j)
        (λ m. omega (arith, common k w m, prefix_above, parts.above, slice_index_lem path sh))
        (λ m. omega (arith, ap (λ (t : ℕ). t / 2 ^ sh) m.0, prefix_above, slice_index_lem key sh))
        (λ j m. absurd m) i

  two :
      (i : ℕ) × (j : ℕ) × (i < j)
      × (j < slnodes)
      × (is_null (child i) ≡ false)
      × (is_null (child j) ≡ false)
  two =
      let old : is_null (child (slice_index path sh)) ≡ false = ap is_null at_path ∙ there in
      let new : is_null (child (slice_index key sh)) ≡ false = ap is_null at_key in
      elim (dec_lt (slice_index path sh) (slice_index key sh)) [
        | yes lt ↦ (slice_index path sh, slice_index key sh, lt, slice_index-lt key sh, old, new)
        | no ge ↦ (
          slice_index key sh,
          slice_index path sh,
          omega (arith, slices_differ),
          slice_index-lt path sh,
          new,
          old,
        )
      ]

  split-IsNode : IsNode prefix sh child
  split-IsNode = record {
    bound = parts.bound;
    round = parts.round;
    fits = path_mask-lt-word key sh in_word parts.bound;
    clear = prefix_clear ∙ ap (λ (t : ℕ). 2 ^ sh * (16 * t)) (sym prefix_above);
    slots = slots;
    descends = λ i p. child_case (λ j t. Below sh t) below tt (λ j. tt) i;
    two = two;
  }

  split_at-IsValid : IsValid (split_at m (leaf a key v) key path n)
  unfolding split_at
  split_at-IsValid = (split-IsNode, λ i p. child_case (λ j t. IsValid t) valid in_word (λ j. tt) i)

  -- the keys of `n` part from the new key, so none of them is the new key
  absent : (w : ℕ) → ¬ Holds n key w
  absent w h = parts.apart (sym (common key w h))

  split_at-entries :
      (k w : ℕ)
      → Holds (split_at m (leaf a key v) key path n) k w ↔ (Holds n k w ⊎ ((k ≡ key) × (w ≡ v)))
  unfolding split_at
  split_at-entries k w = (
    λ h.
        child_case (λ j t. Holds t k w → Holds n k w ⊎ ((k ≡ key) × (w ≡ v))) (λ x. inl x)
          (λ x. inr (sym x.0, sym x.1)) (λ j x. absurd x) h.0 h.2,
    λ h. elim h [
      | inl x ↦
          (slice_index path sh, slice_index-lt path sh, subst (λ t. Holds t k w) (sym at_path) x)
      | inr e ↦ (
        slice_index key sh,
        slice_index-lt key sh,
        subst (λ t. Holds t k w) (sym at_key) (sym e.0, sym e.1),
      )
    ],
  )

  split_at-descends :
      (s : ℕ)
      → ((k w : ℕ) → Holds (split_at m (leaf a key v) key path n) k w → k / 2 ^ s ≡ key / 2 ^ s)
      → sh < s
  split_at-descends s same = elim (dec_lt sh s) [
    | yes lt ↦ lt
    | no ge ↦
        let (k, w, h) = Holds-of_not_null n valid there in
        let agree : k / 2 ^ sh ≡ key / 2 ^ sh =
          div-pow_mono k key s sh (omega arith) (same k w ((split_at-entries k w).1 (inl h))) in
        absurd (parts.apart (sym (common k w h) ∙ agree))
  ]

  pub split_at-Extends : Extends n key v (split_at m (leaf a key v) key path n)
  unfolding split_at
  split_at-Extends = record {
    valid = split_at-IsValid;
    not_null = refl;
    entries = split_at-entries;
    absent = absent;
    descends = λ s b same. split_at-descends s same;
  }
