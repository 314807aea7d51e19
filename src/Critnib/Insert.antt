-- ===== src/Critnib/Insert.antt =====
-- `critnib_insert`. The mutex is held from the first to the last statement, so a call is one step
-- of the structure; what concurrent readers see is not in this module. The walk that keeps
-- `parent` and `prev` pointers is a recursion that rebuilds the path to the changed child.
pub mod Split
pub mod Walk
use ptok.Base.{ℕ, bit_and, bit_xor, Option, none, some, if◌then◌else◌, ◌==◌}
use ptok.Base.Arrays.{store}
use ptok.Word.Slices.{split_shift}
use ptok.Critnib.Tree.{Tree, null, leaf, node, Critnib, path_mask, slice_index}
use ptok.Critnib.Pools.{Supply, Allocated, alloc_node, alloc_leaf, free_leaf}

-- how the walk ends: the leaf takes an empty place, or shares a new node with what was there, or
-- the key is there, or the new node could not be had
pub data Placed : Type 0 where
  linked : Tree → Placed
  split : Tree → Placed
  present : Placed
  no_node : Placed

-- `EEXIST` and `ENOMEM`
pub data Status : Type 0 where
  ok eexist enomem : Status

-- a new node `m` over the new leaf `kn` and the subtree `n`, whose keys begin with `path`
unfoldable pub split_at : (m : ℕ) (kn : Tree) (key path : ℕ) (n : Tree) → Tree
split_at m kn key path n =
    let sh = split_shift (bit_xor path key) in
    node m (bit_and key (path_mask sh)) sh
      (store (store (λ _. null) (slice_index key sh) kn) (slice_index path sh) n)

-- the walk has met a leaf or a node that does not lead to the key
unfoldable pub part : Option ℕ → (kn : Tree) (key path : ℕ) (n : Tree) → Placed
part fresh kn key path n =
    if bit_xor path key == 0
    then present
    else elim fresh [ none ↦ no_node | some m ↦ split (split_at m kn key path n) ]

-- the store through `parent`, seen from the node that holds the changed child
abbrev pub replace_child : (address path shift : ℕ) (child : ℕ → Tree) (i : ℕ) → Placed → Placed
replace_child a path shift child i (linked t) = linked (node a path shift (store child i t))
replace_child a path shift child i (split t) = split (node a path shift (store child i t))
replace_child a path shift child i present = present
replace_child a path shift child i no_node = no_node

unfoldable pub insert_walk : Option ℕ → (kn : Tree) (key : ℕ) → Tree → Placed
insert_walk fresh kn key null = linked kn
insert_walk fresh kn key (leaf a k v) = part fresh kn key k (leaf a k v)
insert_walk fresh kn key (node a path shift child) =
    if bit_and key (path_mask shift) == path
    then replace_child a path shift child (slice_index key shift)
        (insert_walk fresh kn key (child (slice_index key shift)))
    else part fresh kn key path (node a path shift child)

pub record Inserted : Type 0 where
  pub status : Status
  pub critnib : Critnib
  pub supply : Supply

-- what follows the walk; `before` and `after` are the structure and the supply without and with
-- the call of `alloc_node`
abbrev pub finish_insert : (k : ℕ) (before after : Allocated) → Placed → Inserted
finish_insert k before after (linked t) = record {
  status = ok;
  critnib = record (before.critnib) { root = t };
  supply = before.supply;
}
finish_insert k before after (split t) = record {
  status = ok;
  critnib = record (after.critnib) { root = t };
  supply = after.supply;
}
finish_insert k before after present = record {
  status = eexist;
  critnib = free_leaf before.critnib (some k);
  supply = before.supply;
}
finish_insert k before after no_node = record {
  status = enomem;
  critnib = free_leaf after.critnib (some k);
  supply = after.supply;
}

abbrev pub insert_leaf : (key value : ℕ) → Allocated → Option ℕ → Inserted
insert_leaf key value got none = record {
  status = enomem;
  critnib = got.critnib;
  supply = got.supply;
}
insert_leaf key value got (some k) =
    let fresh = alloc_node got.critnib got.supply in
    finish_insert k got fresh (insert_walk fresh.address (leaf k key value) key (got.critnib).root)

unfoldable pub critnib_insert : Critnib → Supply → (key value : ℕ) → Inserted
critnib_insert c s key value = let got = alloc_leaf c s in insert_leaf key value got got.address
