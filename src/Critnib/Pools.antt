-- ===== src/Critnib/Pools.antt =====
-- Allocation in critnib.c: the pools of freed nodes and leaves in front of `Malloc`, and the
-- destruction of the whole structure. `Malloc` is a parameter: a list of the results of the calls
-- to come (`none` is NULL), of which each call takes one; at its end `Malloc` fails. `Free` is
-- seen by the list of the addresses that it is called with.
use ptok.Base.{ℕ, zero, suc, Option, none, some, List, [], ◌∷◌, ◌++◌}
use ptok.Critnib.Tree.{Tree, null, leaf, node, Critnib, deleted_life, slnodes}

abbrev pub Supply : Type 0
Supply = List (Option ℕ)

pub record Allocated : Type 0 where
  pub address : Option ℕ
  pub critnib : Critnib
  pub supply : Supply

-- a call of `Malloc`, with the structure that stays as it is
abbrev pub malloc : Critnib → Supply → Allocated
malloc c [] = record { address = none; critnib = c; supply = [] }
malloc c (a ∷ rest) = record { address = a; critnib = c; supply = rest }

unfoldable pub free_node : Critnib → Option ℕ → Critnib
free_node c none = c
free_node c (some n) = record c { deleted_node = n ∷ c.deleted_node }

unfoldable pub free_leaf : Critnib → Option ℕ → Critnib
free_leaf c none = c
free_leaf c (some k) = record c { deleted_leaf = k ∷ c.deleted_leaf }

abbrev pub take_node : Critnib → Supply → List ℕ → Allocated
take_node c s [] = malloc c s
take_node c s (n ∷ rest) = record {
  address = some n;
  critnib = record c { deleted_node = rest };
  supply = s;
}

unfoldable pub alloc_node : Critnib → Supply → Allocated
alloc_node c s = take_node c s c.deleted_node

abbrev pub take_leaf : Critnib → Supply → List ℕ → Allocated
take_leaf c s [] = malloc c s
take_leaf c s (k ∷ rest) = record {
  address = some k;
  critnib = record c { deleted_leaf = rest };
  supply = s;
}

unfoldable pub alloc_leaf : Critnib → Supply → Allocated
alloc_leaf c s = take_leaf c s c.deleted_leaf

-- `for (i = 0; i < n; i++) …`, collecting what each round frees
unfoldable pub each_below : ℕ → (ℕ → List ℕ) → List ℕ
each_below zero f = []
each_below (suc n) f = each_below n f ++ f n

-- the addresses that `delete_node` frees, in order
unfoldable pub delete_node : Tree → List ℕ
delete_node null = []
delete_node (leaf a key value) = a ∷ []
delete_node (node a path shift child) = each_below slnodes (λ i. delete_node (child i)) ++ a ∷ []

-- `Free(p)`, which ignores NULL
abbrev pub free : Option ℕ → List ℕ
free none = []
free (some a) = a ∷ []

-- the addresses that `critnib_delete` frees, in order; the last is the structure's own
unfoldable pub critnib_delete : (self : ℕ) → Critnib → List ℕ
critnib_delete self c =
    delete_node c.root
    ++ (c.deleted_node
        ++ (c.deleted_leaf
            ++ (each_below deleted_life
                  (λ i. free (c.pending_del_nodes i) ++ free (c.pending_del_leaves i))
                ++ self ∷ [])))
