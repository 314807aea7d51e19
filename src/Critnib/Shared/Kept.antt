-- ===== src/Critnib/Shared/Kept.antt =====
-- What `critnib_insert` keeps for a reader: the pending slots, and what is in the tree.
use ptok.Base.{
  ℕ, ◌%◌, ◌≤◌, ◌<◌, ◌≡◌, refl, sym, ap, ◌∙◌, inl, inr, arith, Option, none, some, List, [], ◌∷◌,
}
use ptok.Word.{word}
use ptok.Critnib.Tree.{leaf, Critnib, deleted_life}
use ptok.Critnib.Pools.{Supply, Allocated, take_leaf, take_node, alloc_leaf, alloc_node, free_leaf}
use ptok.Critnib.Insert.{
  Placed, linked, split, present, no_node, insert_walk, insert_leaf, finish_insert, critnib_insert,
}
use ptok.Critnib.Valid.{IsValid}
use ptok.Critnib.Refines.Insert.{alloc_leaf-root}
use ptok.Critnib.Owned.{in_option, in_tree}
use ptok.Critnib.Owned.Insert.{Grows, insert_walk-Grows}
use ptok.Critnib.Shared.Live.{Live}
use mathlib.Core.Path.{subst}

-- The pending slots are as they were, and what was in the tree is in the tree.
pub record Kept (x : ℕ) (c c' : Critnib) : Type 0 where
  pub nodes : c'.pending_del_nodes ≡ c.pending_del_nodes
  pub leaves : c'.pending_del_leaves ≡ c.pending_del_leaves
  pub tree : in_tree x c.root ≤ in_tree x c'.root

module _ (x : ℕ) where
  take_leaf-Kept : (c : Critnib) (s : Supply) (l : List ℕ) → Kept x c (take_leaf c s l).critnib
  take_leaf-Kept c [] [] = record { nodes = refl; leaves = refl; tree = omega arith }
  take_leaf-Kept c (a ∷ s) [] = record { nodes = refl; leaves = refl; tree = omega arith }
  take_leaf-Kept c s (k ∷ l) = record { nodes = refl; leaves = refl; tree = omega arith }

  take_node-Kept : (c : Critnib) (s : Supply) (l : List ℕ) → Kept x c (take_node c s l).critnib
  take_node-Kept c [] [] = record { nodes = refl; leaves = refl; tree = omega arith }
  take_node-Kept c (a ∷ s) [] = record { nodes = refl; leaves = refl; tree = omega arith }
  take_node-Kept c s (k ∷ l) = record { nodes = refl; leaves = refl; tree = omega arith }

  finish_insert-Kept :
      (c : Critnib) (k : ℕ) (before after : Allocated) (key value : ℕ)
      → Kept x c before.critnib
      → Kept x before.critnib after.critnib
      → (r : Placed) → Grows x before.critnib.root (leaf k key value) after.address r
      → Kept x c (finish_insert k before after r).critnib
  unfolding free_leaf
  finish_insert-Kept c k before after key value b a (linked t) g = record {
    nodes = b.nodes;
    leaves = b.leaves;
    tree = omega (arith, b.tree);
  }
  finish_insert-Kept c k before after key value b a (split t) g = record {
    nodes = a.nodes ∙ b.nodes;
    leaves = a.leaves ∙ b.leaves;
    tree = omega (arith, b.tree);
  }
  finish_insert-Kept c k before after key value b a present g = record {
    nodes = b.nodes;
    leaves = b.leaves;
    tree = b.tree;
  }
  finish_insert-Kept c k before after key value b a no_node g = record {
    nodes = a.nodes ∙ b.nodes;
    leaves = a.leaves ∙ b.leaves;
    tree = omega (arith, b.tree, a.tree);
  }

  insert_leaf-Kept :
      (c : Critnib) (key value : ℕ) (got : Allocated)
      → key < word
      → IsValid got.critnib.root
      → Kept x c got.critnib
      → (o : Option ℕ) → Kept x c (insert_leaf key value got o).critnib
  unfolding alloc_node
  insert_leaf-Kept c key value got in_word valid b none = b
  insert_leaf-Kept c key value got in_word valid b (some k) =
      let after = alloc_node got.critnib got.supply in
      finish_insert-Kept c k got after key value b
        (take_node-Kept got.critnib got.supply got.critnib.deleted_node)
        (insert_walk after.address (leaf k key value) key got.critnib.root)
        (insert_walk-Grows x after.address (leaf k key value) key got.critnib.root in_word valid)

  pub critnib_insert-Kept :
      (c : Critnib) (s : Supply) (key value : ℕ)
      → key < word
      → IsValid c.root
      → Kept x c (critnib_insert c s key value).critnib
  unfolding critnib_insert alloc_leaf
  critnib_insert-Kept c s key value in_word valid =
      let got = alloc_leaf c s in
      insert_leaf-Kept c key value got in_word (subst IsValid (sym (alloc_leaf-root c s)) valid)
        (take_leaf-Kept c s c.deleted_leaf) got.address

  pub Kept-Live :
      (c c' : Critnib) (since : ℕ)
      → Kept x c c'
      → c'.remove_count ≡ c.remove_count
      → Live c since x
      → Live c' since x
  Kept-Live c c' since k e (inl h) = inl (omega (arith, k.tree, h))
  Kept-Live c c' since k e (inr (d, from, past, p)) = inr (
    d,
    from,
    omega (arith, e, past),
    omega (
      arith,
      p,
      ap (λ (f : ℕ → Option ℕ). in_option x (f (d % deleted_life))) k.nodes,
      ap (λ (f : ℕ → Option ℕ). in_option x (f (d % deleted_life))) k.leaves,
    ),
  )
