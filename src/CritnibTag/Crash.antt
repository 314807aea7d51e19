-- ===== src/CritnibTag/Crash.antt =====
-- `critnib_tag_remove` against `critnib_remove`, by where the walk for the key ends.
use ptok.Base.{
  ℕ, zero, suc, ◌%◌, ◌≡◌, refl, ap, ◌∙◌, Bool, true, false, not, ◌&&◌, Bool-cases, inl, inr, Option,
  none, some, if◌then◌else◌,
}
use ptok.Base.Arrays.{store}
use ptok.Critnib.Tree.{Tree, null, leaf, node, Critnib, is_null, slice_index, deleted_life, slnodes}
use ptok.Critnib.Valid.{Holds, IsValid, slice_index-lt}
use ptok.Critnib.Find.Get.{Holds-slice}
use ptok.Critnib.Mapping.{Mapping, Represents}
use ptok.Critnib.Remove.{
  Children, nothing, one, many, Unlinked, missing, here, unlinked, fault, Removed,
}
use ptok.Critnib.Remove.Walk.{Drops, remove_walk-Drops}
use ptok.Critnib.Remove as Remove
use ptok.CritnibTag.Remove as TagRemove
use ptok.Critnib.Pools as Pools
use ptok.CritnibTag.Pools as TagPools
use ptok.CritnibTag.Same.{free_leaf_same}

-- The walk for `key` ends at a missing child.
unfoldable pub dead_end : (key : ℕ) → Tree → Bool
dead_end key null = true
dead_end key (leaf a k v) = false
dead_end key (node a path shift child) = dead_end key (child (slice_index key shift))

scan_children_same :
    (left i : ℕ) (child : ℕ → Tree) (o : Option ℕ)
    → TagRemove.scan_children left i child o ≡ Remove.scan_children left i child o
unfolding TagRemove.scan_children Remove.scan_children
scan_children_same zero i child none = refl
scan_children_same zero i child (some o) = refl
scan_children_same (suc left) i child none =
    scan_children_same left (suc i) child (if is_null (child i) then none else some i)
scan_children_same (suc left) i child (some o) = rw (scan_children_same left (suc i) child (some o))

module _ (t : Tree) (key a path shift : ℕ) where
  collapse_same :
      (rest : ℕ → Tree) (k v : ℕ) (found : Children)
      → Drops t key (Remove.collapse a path shift rest k v found)
      → TagRemove.collapse a path shift rest k v found ≡ Remove.collapse a path shift rest k v found
  unfolding TagRemove.collapse Remove.collapse
  collapse_same rest k v nothing d = absurd d
  collapse_same rest k v (one o) d = refl
  collapse_same rest k v many d = refl

  after_child_same :
      (child : ℕ → Tree) (i : ℕ) (r : Unlinked)
      → Drops t key (Remove.after_child a path shift child i r)
      → TagRemove.after_child a path shift child i r ≡ Remove.after_child a path shift child i r
  unfolding TagRemove.after_child Remove.after_child
  after_child_same child i missing d = refl
  after_child_same child i (here k v) d =
      ap (TagRemove.collapse a path shift (store child i null) k v)
        (scan_children_same slnodes 0 (store child i null) none)
      ∙ collapse_same (store child i null) k v
          (Remove.scan_children slnodes 0 (store child i null) none) d
  after_child_same child i (unlinked v k n t') d = refl
  after_child_same child i fault d = refl

-- the two walks
remove_walk_same :
    (key : ℕ) (t : Tree)
    → IsValid t
    → dead_end key t ≡ false
    → TagRemove.remove_walk key t ≡ Remove.remove_walk key t
unfolding TagRemove.remove_walk Remove.remove_walk dead_end slice_index
remove_walk_same key null valid e = absurd (cc)
remove_walk_same key (leaf a k v) valid e = refl
remove_walk_same key (node a path shift child) valid e =
    ap (TagRemove.after_child a path shift child (slice_index key shift)) (
      remove_walk_same key (child (slice_index key shift))
        (valid.1 (slice_index key shift) (slice_index-lt key shift)) e)
    ∙ after_child_same (node a path shift child) key a path shift child (slice_index key shift)
        (Remove.remove_walk key (child (slice_index key shift)))
        (remove_walk-Drops (node a path shift child) key valid)

remove_walk-fault :
    (key : ℕ) (t : Tree) → dead_end key t ≡ true → TagRemove.remove_walk key t ≡ fault
unfolding TagRemove.remove_walk TagRemove.after_child dead_end slice_index
remove_walk-fault key null e = refl
remove_walk-fault key (leaf a k v) e = absurd (cc)
remove_walk-fault key (node a path shift child) e =
    rw (remove_walk-fault key (child (slice_index key shift)) e)

free_node_same : (c : Critnib) (o : Option ℕ) → TagPools.free_node c o ≡ Pools.free_node c o
unfolding TagPools.free_node Pools.free_node
free_node_same c none = refl
free_node_same c (some k) = refl

rotate_same : (c : Critnib) → TagRemove.rotate c ≡ Remove.rotate c
unfolding TagRemove.rotate Remove.rotate
rotate_same c = rw (free_node_same _ _, free_leaf_same _ _)

finish_remove_same :
    (del : ℕ) (c : Critnib) (r : Unlinked)
    → TagRemove.finish_remove del c r ≡ Remove.finish_remove del c r
unfolding TagRemove.finish_remove Remove.finish_remove
finish_remove_same del c missing = refl
finish_remove_same del c (here k v) = refl
finish_remove_same del c (unlinked v k none t) = refl
finish_remove_same del c (unlinked v k (some n) t) = refl
finish_remove_same del c fault = refl

-- On a well-formed tree, `critnib_tag_remove` reads through NULL, with the emptied pending slot
-- already advanced, exactly where the tree is not empty and the walk ends at a missing child.
-- Everywhere else it is the same function as `critnib_remove`.
pub critnib_tag_remove-cases :
    (c : Critnib) (key : ℕ)
    → IsValid c.root
    → TagRemove.critnib_tag_remove c key ≡ (
        if not (is_null c.root) && dead_end key c.root
        then record { result = none; critnib = TagRemove.rotate c }
        else Remove.critnib_remove c key)
unfolding TagRemove.critnib_tag_remove TagRemove.finish_remove Remove.critnib_remove
critnib_tag_remove-cases c key valid = elim (Bool-cases (is_null c.root)) [
  | inl e ↦ rw e
  | inr e ↦ rw e (elim (Bool-cases (dead_end key c.root)) [
    | inl dead ↦ rw (dead, remove_walk-fault key c.root dead)
    | inr on ↦ rw on (
        rw (rotate_same c, remove_walk_same key c.root valid on)
          (finish_remove_same (c.remove_count % deleted_life) (Remove.rotate c)
            (Remove.remove_walk key c.root)))
  ])
]

held-not_dead : (t : Tree) (k v : ℕ) → IsValid t → Holds t k v → dead_end k t ≡ false
unfolding dead_end
held-not_dead null k v valid m = absurd m
held-not_dead (leaf a j w) k v valid m = refl
held-not_dead (node a path shift child) k v valid m =
    held-not_dead (child (slice_index k shift)) k v
      (valid.1 (slice_index k shift) (slice_index-lt k shift))
      (Holds-slice a path shift child k v valid m)

-- `critnib_tag_remove` of a key that has a value does what `critnib_remove` does.
pub critnib_tag_remove-present :
    (c : Critnib) (m : Mapping) (key v : ℕ)
    → Represents c m
    → m key ≡ some v
    → TagRemove.critnib_tag_remove c key ≡ Remove.critnib_remove c key
critnib_tag_remove-present c m key v rep e =
    critnib_tag_remove-cases c key rep.valid
    ∙ rw (held-not_dead c.root key v rep.valid ((rep.reads key v).1 e))
        (elim (Bool-cases (is_null c.root)) [ inl n ↦ rw n | inr n ↦ rw n ])
