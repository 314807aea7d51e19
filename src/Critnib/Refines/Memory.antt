-- ===== src/Critnib/Refines/Memory.antt =====
-- When `critnib_insert` can run out of memory.
use ptok.Base.{
  ℕ, ◌≡◌, ◌≢◌, refl, bit_and, bit_xor, ◌==◌, Option, none, some, Bool-cases, inl, inr, List, [],
  ◌∷◌,
}
use ptok.Critnib.Tree.{Tree, null, leaf, node, Critnib, path_mask, slice_index}
use ptok.Critnib.Pools.{Supply, Allocated, alloc_node, alloc_leaf, take_node, take_leaf}
use ptok.Critnib.Insert.{
  Placed, linked, split, present, no_node, enomem, part, replace_child, insert_leaf, finish_insert,
  insert_walk, critnib_insert,
}

finish_insert-ne-enomem :
    (a k : ℕ) (before after : Allocated) (r : Placed)
    → after.address ≡ some a
    → (r ≡ no_node → after.address ≡ none)
    → (finish_insert k before after r).status ≢ enomem
finish_insert-ne-enomem a k before after (linked t) h n = cc
finish_insert-ne-enomem a k before after (split t) h n = cc
finish_insert-ne-enomem a k before after present h n = cc
finish_insert-ne-enomem a k before after no_node h n = λ e. cc (n refl)

part-no_node :
    (fresh : Option ℕ) (kn : Tree) (key path : ℕ) (n : Tree)
    → part fresh kn key path n ≡ no_node
    → fresh ≡ none
unfolding part
part-no_node none kn key path n = λ e. refl
part-no_node (some m) kn key path n = elim (Bool-cases (bit_xor path key == 0)) [
  | inl same ↦ rw same λ e. absurd (cc)
  | inr other ↦ rw other λ e. absurd (cc)
]

replace_child-no_node :
    (a path shift : ℕ) (child : ℕ → Tree) (i : ℕ) (r : Placed)
    → replace_child a path shift child i r ≡ no_node
    → r ≡ no_node
replace_child-no_node a path shift child i (linked t) e = absurd (cc)
replace_child-no_node a path shift child i (split t) e = absurd (cc)
replace_child-no_node a path shift child i present e = absurd (cc)
replace_child-no_node a path shift child i no_node e = refl

-- the walk lacks a node only where `alloc_node` failed
insert_walk-no_node :
    (fresh : Option ℕ) (kn : Tree) (key : ℕ) (t : Tree)
    → insert_walk fresh kn key t ≡ no_node
    → fresh ≡ none
unfolding insert_walk
insert_walk-no_node fresh kn key null = λ e. absurd (cc)
insert_walk-no_node fresh kn key (leaf a k w) = part-no_node fresh kn key k (leaf a k w)
insert_walk-no_node fresh kn key (node a path shift child) =
    elim (Bool-cases (bit_and key (path_mask shift) == path)) [
      | inl on ↦ rw on λ e. insert_walk-no_node fresh kn key (child (slice_index key shift)) (
          replace_child-no_node a path shift child (slice_index key shift)
            (insert_walk fresh kn key (child (slice_index key shift))) e)
      | inr off ↦ rw off (part-no_node fresh kn key path (node a path shift child))
    ]

take_node-some :
    (c : Critnib) (a : ℕ) (s : Supply) (l : List ℕ)
    → (x : ℕ) × ((take_node c (some a ∷ s) l).address ≡ some x)
take_node-some c a s [] = (a, refl)
take_node-some c a s (n ∷ l) = (n, refl)

insert_leaf-ne-enomem :
    (key v k a : ℕ) (s : Supply) (got : Allocated)
    → got.supply ≡ some a ∷ s
    → (insert_leaf key v got (some k)).status ≢ enomem
unfolding alloc_node
insert_leaf-ne-enomem key v k a s got e =
    let after = alloc_node got.critnib got.supply in
    let there = take_node-some got.critnib a s got.critnib.deleted_node in
    finish_insert-ne-enomem there.0 k got after
      (insert_walk after.address (leaf k key v) key got.critnib.root) (rw e there.1)
      (insert_walk-no_node after.address (leaf k key v) key got.critnib.root)

take_leaf-ne-enomem :
    (c : Critnib) (a b : ℕ) (s : Supply) (key v : ℕ) (l : List ℕ)
    → let got = take_leaf c (some a ∷ some b ∷ s) l in
      (insert_leaf key v got got.address).status ≢ enomem
take_leaf-ne-enomem c a b s key v [] =
    insert_leaf-ne-enomem key v a b s (take_leaf c (some a ∷ some b ∷ s) []) refl
take_leaf-ne-enomem c a b s key v (k ∷ l) =
    insert_leaf-ne-enomem key v k a (some b ∷ s) (take_leaf c (some a ∷ some b ∷ s) (k ∷ l)) refl

-- With two addresses from `Malloc`, `critnib_insert` does not run out of memory.
pub critnib_insert-ne-enomem :
    (c : Critnib) (a b : ℕ) (s : Supply) (key v : ℕ)
    → (critnib_insert c (some a ∷ some b ∷ s) key v).status ≢ enomem
unfolding critnib_insert alloc_leaf
critnib_insert-ne-enomem c a b s key v = take_leaf-ne-enomem c a b s key v c.deleted_leaf
