-- ===== src/CritnibTag/Same.antt =====
-- critnib-tag.c against critnib.c, operation by operation; `critnib_tag_remove` is in `Crash`.
use ptok.Base.{
  ℕ, zero, suc, bit_and, bit_xor, ◌≡◌, refl, ap, ◌∙◌, ◌++◌, Option, none, some, List, [], ◌∷◌,
}
use ptok.Word.{shr}
use ptok.Word.Slices.{bit_and-wide_round}
use ptok.Critnib.Tree.{Tree, null, leaf, node, Critnib, nib_mask, path_mask, slice_index, slnodes}
use ptok.Critnib.Pools.{Supply, Allocated}
use ptok.Critnib.Insert.{Placed, linked, split, present, no_node, Inserted, replace_child}
use ptok.Critnib.Pools as Pools
use ptok.Critnib.Insert as Insert
use ptok.Critnib.Find as Find
use ptok.CritnibTag.Pools as TagPools
use ptok.CritnibTag.Insert as TagInsert
use ptok.CritnibTag.Find as TagFind

pub free_leaf_same : (c : Critnib) (o : Option ℕ) → TagPools.free_leaf c o ≡ Pools.free_leaf c o
unfolding TagPools.free_leaf Pools.free_leaf
free_leaf_same c none = refl
free_leaf_same c (some k) = refl

pop_leaf_same :
    (c : Critnib) (s : Supply) (l : List ℕ) → TagPools.pop_leaf c s l ≡ Pools.take_leaf c s l
pop_leaf_same c s [] = refl
pop_leaf_same c s (k ∷ l) = refl

pop_node_same :
    (c : Critnib) (s : Supply) (l : List ℕ) → TagPools.pop_node c s l ≡ Pools.take_node c s l
pop_node_same c s [] = refl
pop_node_same c s (k ∷ l) = refl

alloc_leaf_same : (c : Critnib) (s : Supply) → TagPools.alloc_leaf c s ≡ Pools.alloc_leaf c s
unfolding TagPools.alloc_leaf Pools.alloc_leaf
alloc_leaf_same c s = pop_leaf_same c s c.deleted_leaf

alloc_node_same : (c : Critnib) (s : Supply) → TagPools.alloc_node c s ≡ Pools.alloc_node c s
unfolding TagPools.alloc_node Pools.alloc_node
alloc_node_same c s = pop_node_same c s c.deleted_node

split_node_same :
    (m : ℕ) (kn : Tree) (key path : ℕ) (n : Tree)
    → TagInsert.split_node m kn key path n ≡ Insert.split_at m kn key path n
unfolding TagInsert.split_node Insert.split_at path_mask slice_index
split_node_same m kn key path n = rw (bit_and-wide_round (bit_xor path key))

part_same :
    (fresh : Option ℕ) (kn : Tree) (key path : ℕ) (n : Tree)
    → TagInsert.part fresh kn key path n ≡ Insert.part fresh kn key path n
unfolding TagInsert.part Insert.part
part_same none kn key path n = refl
part_same (some m) kn key path n = rw (split_node_same m kn key path n)

insert_walk_same :
    (fresh : Option ℕ) (kn : Tree) (key : ℕ) (t : Tree)
    → TagInsert.insert_walk fresh kn key t ≡ Insert.insert_walk fresh kn key t
unfolding TagInsert.insert_walk Insert.insert_walk path_mask slice_index
insert_walk_same fresh kn key null = refl
insert_walk_same fresh kn key (leaf a k v) = part_same fresh kn key k (leaf a k v)
insert_walk_same fresh kn key (node a path shift child) = rw (
  insert_walk_same fresh kn key (child (bit_and (shr key shift) nib_mask)),
  part_same fresh kn key path (node a path shift child),
)

finish_insert_same :
    (k : ℕ) (before after : Allocated) (r : Placed)
    → TagInsert.finish_insert k before after r ≡ Insert.finish_insert k before after r
finish_insert_same k before after (linked t) = refl
finish_insert_same k before after (split t) = refl
finish_insert_same k before after present = rw (free_leaf_same before.critnib (some k))
finish_insert_same k before after no_node = rw (free_leaf_same after.critnib (some k))

insert_leaf_same :
    (key v : ℕ) (got : Allocated) (o : Option ℕ)
    → TagInsert.insert_leaf key v got o ≡ Insert.insert_leaf key v got o
insert_leaf_same key v got none = refl
insert_leaf_same key v got (some k) =
    rw
      (
        alloc_node_same got.critnib got.supply,
        insert_walk_same (Pools.alloc_node got.critnib got.supply).address (leaf k key v) key
            got.critnib.root,
      )
      (finish_insert_same k got (Pools.alloc_node got.critnib got.supply) (
        Insert.insert_walk (Pools.alloc_node got.critnib got.supply).address (leaf k key v) key
          got.critnib.root))

-- `critnib_tag_insert` is the same function as `critnib_insert`.
pub critnib_tag_insert-eq :
    (c : Critnib) (s : Supply) (key v : ℕ)
    → TagInsert.critnib_tag_insert c s key v ≡ Insert.critnib_insert c s key v
unfolding TagInsert.critnib_tag_insert Insert.critnib_insert
critnib_tag_insert-eq c s key v =
    rw (alloc_leaf_same c s)
      (insert_leaf_same key v (Pools.alloc_leaf c s) (Pools.alloc_leaf c s).address)

get_walk_same : (key : ℕ) (t : Tree) → TagFind.get_walk key t ≡ Find.get_walk key t
unfolding TagFind.get_walk Find.get_walk slice_index
get_walk_same key null = refl
get_walk_same key (leaf a k v) = refl
get_walk_same key (node a path shift child) =
    get_walk_same key (child (bit_and (shr key shift) nib_mask))

retry_same : (fuel m n res : ℕ) → TagFind.retry fuel m n res ≡ Find.retry fuel m n res
unfolding TagFind.retry Find.retry
retry_same zero m n res = refl
retry_same (suc fuel) m n res = rw (retry_same fuel m n res)

last_child_same : (n : ℕ) (child : ℕ → Tree) → TagFind.last_child n child ≡ Find.last_child n child
unfolding TagFind.last_child Find.last_child
last_child_same zero child = refl
last_child_same (suc n) child = rw (last_child_same n child)

choice_same :
    (child : ℕ → Tree)
    → ((i : ℕ) → TagFind.find_successor (child i) ≡ Find.find_successor (child i))
    → (o : Option ℕ)
    → (let r : ℕ = elim o [ none ↦ 0 | some i ↦ TagFind.find_successor (child i) ] in r)
      ≡ elim o [ none ↦ 0 | some i ↦ Find.find_successor (child i) ]
choice_same child h none = refl
choice_same child h (some i) = h i

find_successor_same : (t : Tree) → TagFind.find_successor t ≡ Find.find_successor t
unfolding TagFind.find_successor Find.find_successor
find_successor_same null = refl
find_successor_same (leaf a k v) = refl
find_successor_same (node a path shift child) =
    rw (last_child_same slnodes child, TagFind.find_successor, Find.find_successor)
      (choice_same child (λ i. find_successor_same (child i)) (Find.last_child slnodes child))

search_left_same :
    (nib : ℕ) (child : ℕ → Tree) → TagFind.search_left nib child ≡ Find.search_left nib child
unfolding TagFind.search_left Find.search_left
search_left_same nib child =
    rw (TagFind.search_left, Find.search_left, last_child_same nib child)
      (choice_same child (λ i. find_successor_same (child i)) (Find.last_child nib child))

find_le_same : (key : ℕ) (t : Tree) → TagFind.find_le key t ≡ Find.find_le key t
unfolding TagFind.find_le Find.find_le slice_index
find_le_same key null = refl
find_le_same key (leaf a k v) = refl
find_le_same key (node a path shift child) =
    let nib = bit_and (shr key shift) nib_mask in
    rw (
      find_le_same key (child nib),
      search_left_same nib child,
      find_successor_same (node a path shift child),
    )

-- `critnib_tag_get` and `critnib_tag_find_le` return what `critnib_get` and `critnib_find_le` do.
pub critnib_tag_find-eq :
    (fuel : ℕ) (c : Critnib) (key : ℕ)
    → (TagFind.critnib_tag_get fuel c key ≡ Find.critnib_get fuel c key)
      × (TagFind.critnib_tag_find_le fuel c key ≡ Find.critnib_find_le fuel c key)
unfolding TagFind.critnib_tag_get Find.critnib_get TagFind.critnib_tag_find_le Find.critnib_find_le
critnib_tag_find-eq fuel c key = (
  retry_same fuel c.remove_count c.remove_count (TagFind.get_walk key c.root)
      ∙ ap (Find.retry fuel c.remove_count c.remove_count) (get_walk_same key c.root),
  retry_same fuel c.remove_count c.remove_count (TagFind.find_le key c.root)
      ∙ ap (Find.retry fuel c.remove_count c.remove_count) (find_le_same key c.root),
)

each_below_congr :
    (n : ℕ) (f g : ℕ → List ℕ) → ((i : ℕ) → f i ≡ g i) → Pools.each_below n f ≡ Pools.each_below n g
unfolding Pools.each_below
each_below_congr zero f g h = refl
each_below_congr (suc n) f g h = rw (each_below_congr n f g h, h n)

delete_node_same : (t : Tree) → TagPools.delete_node t ≡ Pools.delete_node t
unfolding TagPools.delete_node Pools.delete_node
delete_node_same null = refl
delete_node_same (leaf a k v) = refl
delete_node_same (node a path shift child) =
    ap (λ l. l ++ a ∷ [])
      (each_below_congr slnodes (λ i. TagPools.delete_node (child i))
        (λ i. Pools.delete_node (child i)) (λ i. delete_node_same (child i)))

-- `critnib_tag_delete` frees what `critnib_delete` frees, in the same order.
pub critnib_tag_delete-eq :
    (self : ℕ) (c : Critnib) → TagPools.critnib_tag_delete self c ≡ Pools.critnib_delete self c
unfolding TagPools.critnib_tag_delete Pools.critnib_delete
critnib_tag_delete-eq self c = rw (delete_node_same c.root)
