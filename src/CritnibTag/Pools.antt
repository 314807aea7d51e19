-- ===== src/CritnibTag/Pools.antt =====
-- The pools of critnib-tag.c and the destruction of the structure.
use ptok.Base.{ℕ, Option, none, some, List, [], ◌∷◌, ◌++◌}
use ptok.Critnib.Tree.{Tree, null, leaf, node, Critnib, deleted_life, slnodes}
use ptok.Critnib.Pools.{Supply, Allocated, malloc, each_below, free}

unfoldable pub critnib_tag_new : Critnib
critnib_tag_new = record {
  root = null;
  deleted_node = [];
  deleted_leaf = [];
  pending_del_nodes = λ _. none;
  pending_del_leaves = λ _. none;
  remove_count = 0;
}

unfoldable pub free_node : Critnib → Option ℕ → Critnib
free_node c none = c
free_node c (some n) = record c { deleted_node = n ∷ c.deleted_node }

unfoldable pub free_leaf : Critnib → Option ℕ → Critnib
free_leaf c none = c
free_leaf c (some k) = record c { deleted_leaf = k ∷ c.deleted_leaf }

abbrev pub pop_node : Critnib → Supply → List ℕ → Allocated
pop_node c s [] = malloc c s
pop_node c s (n ∷ rest) = record {
  address = some n;
  critnib = record c { deleted_node = rest };
  supply = s;
}

unfoldable pub alloc_node : Critnib → Supply → Allocated
alloc_node c s = pop_node c s c.deleted_node

abbrev pub pop_leaf : Critnib → Supply → List ℕ → Allocated
pop_leaf c s [] = malloc c s
pop_leaf c s (k ∷ rest) = record {
  address = some k;
  critnib = record c { deleted_leaf = rest };
  supply = s;
}

unfoldable pub alloc_leaf : Critnib → Supply → Allocated
alloc_leaf c s = pop_leaf c s c.deleted_leaf

-- the addresses that `delete_node` frees, in order
unfoldable pub delete_node : Tree → List ℕ
delete_node null = []
delete_node (leaf a key value) = a ∷ []
delete_node (node a path shift child) = each_below slnodes (λ i. delete_node (child i)) ++ a ∷ []

-- the addresses that `critnib_tag_delete` frees, in order; the last is the structure's own
unfoldable pub critnib_tag_delete : (self : ℕ) → Critnib → List ℕ
critnib_tag_delete self c =
    delete_node c.root
    ++ (c.deleted_node
        ++ (c.deleted_leaf
            ++ (each_below deleted_life
                  (λ i. free (c.pending_del_nodes i) ++ free (c.pending_del_leaves i))
                ++ self ∷ [])))
