-- ===== src/Critbit.antt =====
-- critbit.c: a tree that branches on the lowest bit where keys differ. Leaves and inner nodes are
-- the same struct; one with `bit` 0 is a leaf, and has its value in `child[0]`.
pub mod Insert
pub mod Remove
pub mod Valid
pub mod Bits
pub mod Refines
use ptok.Base.{ℕ, ◌+◌, bit_and, Option, none, some, List, [], ◌∷◌, ◌++◌, if◌then◌else◌, ◌==◌}

-- `struct critbit_node`, by its `bit`; the children of an inner node are never NULL
pub data Node : Type 0 where
  leaf : (address path value : ℕ) → Node
  fork : (address path bit : ℕ) (zero_side one_side : Node) → Node

pub record Critbit : Type 0 where
  pub root : Option Node
  pub deleted_node : List ℕ

unfoldable pub critbit_new : Critbit
critbit_new = record { root = none; deleted_node = [] }

-- `child[0]` of a freed node is the link of the list
unfoldable pub free_node : Critbit → ℕ → Critbit
free_node c n = record c { deleted_node = n ∷ c.deleted_node }

-- the list of freed nodes after `delete_node`, which puts the leaves on it
unfoldable pub delete_node : Node → List ℕ → List ℕ
delete_node (leaf a path value) deleted = a ∷ deleted
delete_node (fork a path bit left right) deleted = delete_node right (delete_node left deleted)

-- the addresses that `critbit_delete` frees, in order; the last is the structure's own
unfoldable pub critbit_delete : (self : ℕ) → Critbit → List ℕ
critbit_delete self c =
    elim c.root [ none ↦ c.deleted_node | some n ↦ delete_node n c.deleted_node ] ++ self ∷ []

unfoldable pub get_walk : (key : ℕ) → Node → ℕ
get_walk key (leaf a path value) = if path == key then value else 0
get_walk key (fork a path bit left right) =
    let zero_side = get_walk key left in
    let one_side = get_walk key right in if bit_and bit key == 0 then zero_side else one_side

unfoldable pub critbit_get : Critbit → (key : ℕ) → ℕ
critbit_get c key = elim c.root [ none ↦ 0 | some n ↦ get_walk key n ]
