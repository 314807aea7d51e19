-- ===== src/Critnib/Counts.antt =====
-- `remove_count`: what the writers do to it.
use ptok.Base.{
  ℕ, ◌+◌, ◌%◌, ◌≤◌, ◌≡◌, refl, ◌∙◌, arith, Bool-cases, Option, none, some, List, [], ◌∷◌, inl, inr,
  if◌then◌else◌,
}
use ptok.Word.{word}
use ptok.Critnib.Tree.{Tree, Critnib, deleted_life, is_null}
use ptok.Critnib.Pools.{
  Supply, Allocated, take_leaf, take_node, alloc_leaf, alloc_node, free_leaf, free_node,
}
use ptok.Critnib.Insert.{
  critnib_insert, Placed, linked, split, present, no_node, finish_insert, insert_leaf, insert_walk,
}
use ptok.Critnib.Remove.{
  critnib_remove, rotate, finish_remove, remove_walk, Unlinked, missing, here, unlinked, fault,
}

take_leaf-count :
    (c : Critnib) (s : Supply) (l : List ℕ)
    → (take_leaf c s l).critnib.remove_count ≡ c.remove_count
take_leaf-count c [] [] = refl
take_leaf-count c (a ∷ s) [] = refl
take_leaf-count c s (k ∷ l) = refl

take_node-count :
    (c : Critnib) (s : Supply) (l : List ℕ)
    → (take_node c s l).critnib.remove_count ≡ c.remove_count
take_node-count c [] [] = refl
take_node-count c (a ∷ s) [] = refl
take_node-count c s (k ∷ l) = refl

finish_insert-count :
    (k : ℕ) (before after : Allocated) (n : ℕ)
    → before.critnib.remove_count ≡ n
    → after.critnib.remove_count ≡ n
    → (r : Placed) → (finish_insert k before after r).critnib.remove_count ≡ n
unfolding free_leaf
finish_insert-count k before after n b a (linked t) = b
finish_insert-count k before after n b a (split t) = a
finish_insert-count k before after n b a present = b
finish_insert-count k before after n b a no_node = a

insert_leaf-count :
    (key v : ℕ) (got : Allocated) (o : Option ℕ)
    → (insert_leaf key v got o).critnib.remove_count ≡ got.critnib.remove_count
unfolding alloc_node
insert_leaf-count key v got none = refl
insert_leaf-count key v got (some k) =
    let after = alloc_node got.critnib got.supply in
    finish_insert-count k got after got.critnib.remove_count refl
      (take_node-count got.critnib got.supply got.critnib.deleted_node)
      (insert_walk after.address (Tree.leaf k key v) key got.critnib.root)

pub critnib_insert-count :
    (c : Critnib) (s : Supply) (key v : ℕ)
    → (critnib_insert c s key v).critnib.remove_count ≡ c.remove_count
unfolding critnib_insert alloc_leaf
critnib_insert-count c s key v =
    insert_leaf-count key v (alloc_leaf c s) (alloc_leaf c s).address
    ∙ take_leaf-count c s c.deleted_leaf

pub finish_remove-count :
    (del : ℕ) (c : Critnib) (r : Unlinked)
    → (finish_remove del c r).critnib.remove_count ≡ c.remove_count
unfolding finish_remove
finish_remove-count del c missing = refl
finish_remove-count del c (here k v) = refl
finish_remove-count del c (unlinked v k none t) = refl
finish_remove-count del c (unlinked v k (some n) t) = refl
finish_remove-count del c fault = refl

free-count :
    (c : Critnib) (n k : Option ℕ) → (free_leaf (free_node c n) k).remove_count ≡ c.remove_count
unfolding free_leaf free_node
free-count c none none = refl
free-count c none (some k) = refl
free-count c (some n) none = refl
free-count c (some n) (some k) = refl

pub rotate-count : (c : Critnib) → (rotate c).remove_count ≡ (c.remove_count + 1) % word
unfolding rotate
rotate-count c =
    let del = c.remove_count % deleted_life in
    free-count (record c { remove_count = (c.remove_count + 1) % word }) (c.pending_del_nodes del)
      (c.pending_del_leaves del)

-- A remove counts once, unless the tree is empty.
pub critnib_remove-count :
    (c : Critnib) (key : ℕ)
    → (critnib_remove c key).critnib.remove_count
      ≡ (if is_null c.root then c.remove_count else (c.remove_count + 1) % word)
unfolding critnib_remove
critnib_remove-count c key = elim (Bool-cases (is_null c.root)) [
  | inl e ↦ rw e refl
  | inr e ↦ rw e (
      finish_remove-count (c.remove_count % deleted_life) (rotate c) (remove_walk key c.root)
      ∙ rotate-count c)
]

pub remove_count-le :
    (c : Critnib) (key : ℕ) → (critnib_remove c key).critnib.remove_count ≤ c.remove_count + 1
remove_count-le c key = ground (arith, critnib_remove-count c key)
