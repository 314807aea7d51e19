-- ===== src/Critnib/Owned/Insert.antt =====
-- What `critnib_insert` does to the memory that the structure owns.
use ptok.Base.{
  ℕ, ◌+◌, ◌<◌, ◌≡◌, ◌≢◌, refl, sym, ap, arith, bit_and, bit_xor, ◌==◌, Bool-cases, inl, inr, Option,
  none, some, Option-cases, List, [], ◌∷◌,
}
use mathlib.Core.Path.{subst}
use ptok.Base.Arrays.{store, store_ne, sum-store, sum_zero}
use ptok.Word.{word}
use ptok.Word.Slices.{split_shift, split_shift-Parts, bit_xor_iff}
use ptok.Critnib.Tree.{Tree, null, leaf, node, Critnib, path_mask, slice_index, slnodes}
use ptok.Critnib.Pools.{Supply, Allocated, alloc_node, alloc_leaf, take_node, take_leaf, free_leaf}
use ptok.Critnib.Valid.{IsValid, slice_index_lem, slice_index-lt}
use ptok.Critnib.Insert.{
  Placed, linked, split, present, no_node, split_at, part, replace_child, insert_walk, insert_leaf,
  finish_insert, critnib_insert,
}
use ptok.Critnib.Refines.Insert.{alloc_leaf-root, alloc_node-root}
use ptok.Critnib.Owned.{hit, count, in_option, in_supply, in_tree, owned}

module _ (x : ℕ) where
  -- the new node holds the leaf, the old subtree and itself
  split_at-in_tree :
      (m : ℕ) (kn : Tree) (key path : ℕ) (n : Tree)
      → key < word
      → path < word
      → path ≢ key
      → in_tree x (split_at m kn key path n) ≡ hit x m + (in_tree x kn + in_tree x n)
  unfolding split_at
  split_at-in_tree m kn key path n in_word fits ne =
      let sh = split_shift (bit_xor path key) in
      let parts = split_shift-Parts path key fits in_word ne in
      let apart : slice_index path sh ≢ slice_index key sh = λ e.
        parts.apart
          (omega (arith, parts.above, e, slice_index_lem key sh, slice_index_lem path sh)) in
      let first = store (λ _. null) (slice_index key sh) kn in
      omega (
        arith,
        sum-store slnodes (slice_index path sh) first n (in_tree x) (slice_index-lt path sh),
        sum-store slnodes (slice_index key sh) (λ _. null) kn (in_tree x) (slice_index-lt key sh),
        sum_zero slnodes (λ i. in_tree x null) (λ i p. refl),
        ap (in_tree x) (store_ne (λ _. null) (slice_index key sh) (slice_index path sh) kn apart),
      )

  -- the memory of the tree that the walk makes
  abbrev pub Grows : Tree → (kn : Tree) → Option ℕ → Placed → Type 0
  Grows t kn fresh (linked t') = in_tree x t' ≡ in_tree x t + in_tree x kn
  Grows t kn fresh (split t') = in_tree x t' ≡ in_tree x t + in_tree x kn + in_option x fresh
  Grows t kn fresh present = Unit
  Grows t kn fresh no_node = fresh ≡ none

  part-Grows :
      (fresh : Option ℕ) (kn : Tree) (key path : ℕ) (n : Tree)
      → key < word
      → path < word
      → Grows n kn fresh (part fresh kn key path n)
  unfolding part
  part-Grows fresh kn key path n in_word fits = elim (Bool-cases (bit_xor path key == 0)) [
    | inl e ↦ rw e tt
    | inr e ↦ elim (Option-cases fresh) [
      | inl f ↦ rw (e, f) refl
      | inr f ↦
          rw (e, f.1)
            (omega (
              arith,
              split_at-in_tree f.0 kn key path n in_word fits
                  (λ same. cc ((bit_xor_iff path key).1 same)),
            ))
    ]
  ]

  replace_child-Grows :
      (fresh : Option ℕ) (kn : Tree) (b path shift : ℕ) (child : ℕ → Tree) (i : ℕ)
      → i < slnodes
      → (r : Placed) → Grows (child i) kn fresh r
      → Grows (node b path shift child) kn fresh (replace_child b path shift child i r)
  replace_child-Grows fresh kn b path shift child i p (linked t') g =
      omega (arith, sum-store slnodes i child t' (in_tree x) p)
  replace_child-Grows fresh kn b path shift child i p (split t') g =
      omega (arith, sum-store slnodes i child t' (in_tree x) p)
  replace_child-Grows fresh kn b path shift child i p present g = tt
  replace_child-Grows fresh kn b path shift child i p no_node g = g

  pub insert_walk-Grows :
      (fresh : Option ℕ) (kn : Tree) (key : ℕ) (t : Tree)
      → key < word
      → IsValid t
      → Grows t kn fresh (insert_walk fresh kn key t)
  unfolding insert_walk
  insert_walk-Grows fresh kn key null in_word valid = omega arith
  insert_walk-Grows fresh kn key (leaf b k w) in_word valid =
      part-Grows fresh kn key k (leaf b k w) in_word valid
  insert_walk-Grows fresh kn key (node b path shift child) in_word valid =
      elim (Bool-cases (bit_and key (path_mask shift) == path)) [
        | inl e ↦
            let i = slice_index key shift in
            let p = slice_index-lt key shift in
            rw e (
              replace_child-Grows fresh kn b path shift child i p
                (insert_walk fresh kn key (child i))
                (insert_walk-Grows fresh kn key (child i) in_word (valid.1 i p)))
        | inr e ↦ rw e (part-Grows fresh kn key path (node b path shift child) in_word valid.0.fits)
      ]

  -- what is owned and what `Malloc` still has to give
  abbrev total : Critnib → Supply → ℕ
  total c s = owned x c + in_supply x s

  take_leaf-total :
      (c : Critnib) (s : Supply) (l : List ℕ)
      → l ≡ c.deleted_leaf
      → let g = take_leaf c s l in total g.critnib g.supply + in_option x g.address ≡ total c s
  take_leaf-total c [] [] e = omega arith
  take_leaf-total c (a ∷ s) [] e = omega arith
  take_leaf-total c s (k ∷ l) e = omega (arith, ap (count x) e)

  take_node-total :
      (c : Critnib) (s : Supply) (l : List ℕ)
      → l ≡ c.deleted_node
      → let g = take_node c s l in total g.critnib g.supply + in_option x g.address ≡ total c s
  take_node-total c [] [] e = omega arith
  take_node-total c (a ∷ s) [] e = omega arith
  take_node-total c s (n ∷ l) e = omega (arith, ap (count x) e)

  finish_insert-total :
      (k : ℕ) (before after : Allocated) (key value : ℕ)
      → before.critnib.root ≡ after.critnib.root
      → total after.critnib after.supply + in_option x after.address
        ≡ total before.critnib before.supply
      → (r : Placed) → Grows before.critnib.root (leaf k key value) after.address r
      → let i = finish_insert k before after r in
        total i.critnib i.supply ≡ total before.critnib before.supply + hit x k
  unfolding free_leaf
  finish_insert-total k before after key value same e (linked t') g = omega arith
  finish_insert-total k before after key value same e (split t') g =
      omega (arith, ap (in_tree x) same)
  finish_insert-total k before after key value same e present g = omega arith
  finish_insert-total k before after key value same e no_node g = omega (arith, ap (in_option x) g)

  insert_leaf-total :
      (key value : ℕ) (got : Allocated)
      → key < word
      → IsValid got.critnib.root
      → (o : Option ℕ)
      → let i = insert_leaf key value got o in
        total i.critnib i.supply ≡ total got.critnib got.supply + in_option x o
  unfolding alloc_node
  insert_leaf-total key value got in_word valid none = omega arith
  insert_leaf-total key value got in_word valid (some k) =
      let after = alloc_node got.critnib got.supply in
      finish_insert-total k got after key value (sym (alloc_node-root got.critnib got.supply))
        (take_node-total got.critnib got.supply got.critnib.deleted_node refl)
        (insert_walk after.address (leaf k key value) key got.critnib.root)
        (insert_walk-Grows after.address (leaf k key value) key got.critnib.root in_word valid)

-- No address is lost or made up by `critnib_insert`: what the structure owns afterwards, with what
-- `Malloc` still has to give, is what it was before.
pub critnib_insert-owned :
    (x : ℕ) (c : Critnib) (s : Supply) (key value : ℕ)
    → key < word
    → IsValid c.root
    → let i = critnib_insert c s key value in
      owned x i.critnib + in_supply x i.supply ≡ owned x c + in_supply x s
unfolding critnib_insert alloc_leaf
critnib_insert-owned x c s key value in_word valid =
    let got = alloc_leaf c s in
    omega (
      arith,
      insert_leaf-total x key value got in_word (subst IsValid (sym (alloc_leaf-root c s)) valid)
          got.address,
      take_leaf-total x c s c.deleted_leaf refl,
    )
