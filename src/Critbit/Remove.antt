-- ===== src/Critbit/Remove.antt =====
-- `critbit_remove`.
use ptok.Base.{ℕ, bit_and, none, some, if◌then◌else◌, ◌==◌}
use ptok.Critbit.{Node, leaf, fork, Critbit, free_node}

-- how the walk ends below a node: no such key; the node itself is the leaf; or the leaf is
-- unlinked, and this is the node that is left
pub data Unlinked : Type 0 where
  missing : Unlinked
  here : (address value : ℕ) → Unlinked
  unlinked : (leaf_address value : ℕ) → Node → Unlinked

-- from the child on one side to the node, `other` being the other child
abbrev pub after_child : (Node → Node) → (other : Node) → Unlinked → Unlinked
after_child relink other missing = missing
after_child relink other (here k value) = unlinked k value other
after_child relink other (unlinked k value n) = unlinked k value (relink n)

unfoldable pub remove_walk : (key : ℕ) → Node → Unlinked
remove_walk key (leaf a path value) = if path == key then here a value else missing
remove_walk key (fork a path bit left right) =
    let left' = remove_walk key left in
    let right' = remove_walk key right in
    if bit_and bit key == 0
    then after_child (λ n. fork a path bit n right) right left'
    else after_child (λ n. fork a path bit left n) left right'

pub record Removed : Type 0 where
  pub result : ℕ
  pub critbit : Critbit

unfoldable pub finish_remove : Critbit → Unlinked → Removed
finish_remove c missing = record { result = 0; critbit = c }
finish_remove c (here k value) = record {
  result = value;
  critbit = free_node (record c { root = none }) k;
}
finish_remove c (unlinked k value n) = record {
  result = value;
  critbit = free_node (record c { root = some n }) k;
}

unfoldable pub critbit_remove : Critbit → (key : ℕ) → Removed
critbit_remove c key = elim c.root [
  | none ↦ record { result = 0; critbit = c }
  | some n ↦ finish_remove c (remove_walk key n)
]
