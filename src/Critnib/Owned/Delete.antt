-- ===== src/Critnib/Owned/Delete.antt =====
-- What `critnib_delete` frees against what the structure owns.
use ptok.Base.{ℕ, zero, suc, ◌+◌, ◌≡◌, refl, arith, Option, none, some, List, [], ◌∷◌, ◌++◌}
use ptok.Base.Arrays.{sum, sum_congr}
use ptok.Critnib.Tree.{Tree, null, leaf, node, Critnib, slnodes, deleted_life}
use ptok.Critnib.Pools.{each_below, delete_node, free, critnib_delete}
use ptok.Critnib.Owned.{hit, count, in_option, in_tree, owned}

module _ (x : ℕ) where
  count-append : (l r : List ℕ) → count x (l ++ r) ≡ count x l + count x r
  count-append [] r = omega arith
  count-append (a ∷ l) r = omega (arith, count-append l r)

  count-each_below :
      (n : ℕ) (f : ℕ → List ℕ) → count x (each_below n f) ≡ sum n (λ i. count x (f i))
  unfolding each_below sum
  count-each_below zero f = refl
  count-each_below (suc n) f =
      omega (arith, count-append (each_below n f) (f n), count-each_below n f)

  count-free : (o : Option ℕ) → count x (free o) ≡ in_option x o
  count-free none = refl
  count-free (some a) = omega arith

  count-delete_node : (t : Tree) → count x (delete_node t) ≡ in_tree x t
  unfolding delete_node
  count-delete_node null = refl
  count-delete_node (leaf a k v) = omega arith
  count-delete_node (node a path shift child) = omega (
    arith,
    count-append (each_below slnodes (λ i. delete_node (child i))) (a ∷ []),
    count-each_below slnodes (λ i. delete_node (child i)),
    sum_congr slnodes (λ i. count x (delete_node (child i))) (λ i. in_tree x (child i))
        (λ i p. count-delete_node (child i)),
  )

  -- the sum over both arrays of pending slots
  sum-pending :
      (n : ℕ) (f g : ℕ → Option ℕ)
      → sum n (λ i. count x (free (f i) ++ free (g i)))
        ≡ sum n (λ i. in_option x (f i)) + sum n (λ i. in_option x (g i))
  unfolding sum
  sum-pending zero f g = refl
  sum-pending (suc n) f g = omega (
    arith,
    count-append (free (f n)) (free (g n)),
    count-free (f n),
    count-free (g n),
    sum-pending n f g,
  )

-- Every address is freed as often as the structure owns it, and the structure itself once.
pub count-critnib_delete :
    (x self : ℕ) (c : Critnib) → count x (critnib_delete self c) ≡ owned x c + hit x self
unfolding critnib_delete
count-critnib_delete x self c =
    let pending =
      each_below deleted_life
        (λ i. free (c.pending_del_nodes i) ++ free (c.pending_del_leaves i)) in
    omega (
      arith,
      count-append x (delete_node c.root)
          (c.deleted_node ++ (c.deleted_leaf ++ (pending ++ self ∷ []))),
      count-append x c.deleted_node (c.deleted_leaf ++ (pending ++ self ∷ [])),
      count-append x c.deleted_leaf (pending ++ self ∷ []),
      count-append x pending (self ∷ []),
      count-delete_node x c.root,
      count-each_below x deleted_life
          (λ i. free (c.pending_del_nodes i) ++ free (c.pending_del_leaves i)),
      sum-pending x deleted_life c.pending_del_nodes c.pending_del_leaves,
    )
