-- ===== src/Critnib/Tree.antt =====
-- The data of critnib.c. A tagged pointer is a tree: NULL, a pointer to a leaf or a pointer to a
-- node; a node or leaf carries the address of its memory. The 16 children of a node are a
-- function of the index, of which only the indices below 16 are used. The memory that the
-- structure keeps for reuse is a list of addresses for each singly linked list.
use ptok.Base.{ℕ, bit_and, Bool, true, false, Option, none, List, []}
use ptok.Word.{shr, shl, complement}

-- `struct critnib_node *`, with the leaf that a tagged pointer leads to
pub data Tree : Type 0 where
  null : Tree
  leaf : (address key value : ℕ) → Tree
  node : (address path shift : ℕ) → (ℕ → Tree) → Tree

-- `struct critnib`
pub record Critnib : Type 0 where
  pub root : Tree
  pub deleted_node : List ℕ
  pub deleted_leaf : List ℕ
  pub pending_del_nodes : ℕ → Option ℕ
  pub pending_del_leaves : ℕ → Option ℕ
  pub remove_count : ℕ

abbrev pub deleted_life : ℕ
deleted_life = 16

abbrev pub nib_mask : ℕ
nib_mask = 15

abbrev pub slnodes : ℕ
slnodes = 16

-- `!n`
abbrev pub is_null : Tree → Bool
is_null null = true
is_null (leaf _ _ _) = false
is_null (node _ _ _ _) = false

unfoldable pub path_mask : ℕ → ℕ
path_mask shift = shl (complement nib_mask) shift

unfoldable pub slice_index : ℕ → ℕ → ℕ
slice_index key shift = bit_and (shr key shift) nib_mask

-- zeroed memory; `Zalloc` failing is left to the caller of the library
unfoldable pub critnib_new : Critnib
critnib_new = record {
  root = null;
  deleted_node = [];
  deleted_leaf = [];
  pending_del_nodes = λ _. none;
  pending_del_leaves = λ _. none;
  remove_count = 0;
}
