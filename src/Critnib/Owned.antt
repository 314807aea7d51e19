-- ===== src/Critnib/Owned.antt =====
-- Who owns which memory: the number of places of a critnib in which an address stands.
pub mod Insert
pub mod Remove
pub mod Delete
use ptok.Base.{ℕ, ◌+◌, ◌≡◌, Option, none, some, List, [], ◌∷◌, ◌==◌, if◌then◌else◌}
use ptok.Base.Arrays.{sum}
use ptok.Critnib.Tree.{Tree, null, leaf, node, Critnib, slnodes, deleted_life}
use ptok.Critnib.Pools.{Supply}

abbrev pub hit : ℕ → ℕ → ℕ
hit a b = if a == b then 1 else 0

abbrev pub count : ℕ → List ℕ → ℕ
count a [] = 0
count a (b ∷ l) = hit a b + count a l

abbrev pub in_option : ℕ → Option ℕ → ℕ
in_option a none = 0
in_option a (some b) = hit a b

-- among the results of the calls of `Malloc` to come
abbrev pub in_supply : ℕ → Supply → ℕ
in_supply a [] = 0
in_supply a (o ∷ s) = in_option a o + in_supply a s

abbrev pub in_tree : ℕ → Tree → ℕ
in_tree a null = 0
in_tree a (leaf b k v) = hit a b
in_tree a (node b path shift child) = hit a b + sum slnodes (λ i. in_tree a (child i))

abbrev pub owned : ℕ → Critnib → ℕ
owned a c =
    in_tree a c.root
    + count a c.deleted_node
    + count a c.deleted_leaf
    + sum deleted_life (λ i. in_option a (c.pending_del_nodes i))
    + sum deleted_life (λ i. in_option a (c.pending_del_leaves i))
