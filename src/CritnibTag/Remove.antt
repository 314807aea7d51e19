-- ===== src/CritnibTag/Remove.antt =====
-- `critnib_tag_remove`. Its walk asks only whether it has met a leaf: `is_leaf(NULL)` is false,
-- so on a missing child it reads through NULL, which is `fault` here.
use ptok.Base.{ℕ, zero, suc, ◌+◌, ◌%◌, bit_and, Option, none, some, if◌then◌else◌, ◌==◌}
use ptok.Base.Arrays.{store}
use ptok.Word.{word, shr}
use ptok.Critnib.Tree.{Tree, null, leaf, node, Critnib, is_null, nib_mask, deleted_life, slnodes}
use ptok.Critnib.Remove.{
  Children, nothing, one, many, Unlinked, missing, here, unlinked, fault, Removed,
}
use ptok.CritnibTag.Pools.{free_node, free_leaf}

-- the loop over the children with `ochild`, which starts at -1 (`none`)
unfoldable pub scan_children : (left i : ℕ) → (ℕ → Tree) → Option ℕ → Children
scan_children zero i child none = nothing
scan_children zero i child (some o) = one o
scan_children (suc left) i child none =
    scan_children left (suc i) child (if is_null (child i) then none else some i)
scan_children (suc left) i child (some o) =
    let rest = scan_children left (suc i) child (some o) in if is_null (child i) then rest else many

-- `ochild` is 0 where no child is left ("paranoia")
unfoldable pub collapse :
    (address path shift : ℕ) (child : ℕ → Tree) → (k value : ℕ) → Children → Unlinked
collapse a path shift child k value nothing = unlinked value k (some a) (child 0)
collapse a path shift child k value (one o) = unlinked value k (some a) (child o)
collapse a path shift child k value many = unlinked value k none (node a path shift child)

unfoldable pub after_child :
    (address path shift : ℕ) (child : ℕ → Tree) (i : ℕ) → Unlinked → Unlinked
after_child a path shift child i missing = missing
after_child a path shift child i (here k value) =
    let rest = store child i null in
    collapse a path shift rest k value (scan_children slnodes 0 rest none)
after_child a path shift child i (unlinked value k n t) =
    unlinked value k n (node a path shift (store child i t))
after_child a path shift child i fault = fault

unfoldable pub remove_walk : (key : ℕ) → Tree → Unlinked
remove_walk key null = fault
remove_walk key (leaf a k v) = if k == key then here a v else missing
remove_walk key (node a path shift child) =
    after_child a path shift child (bit_and (shr key shift) nib_mask)
      (remove_walk key (child (bit_and (shr key shift) nib_mask)))

unfoldable pub rotate : Critnib → Critnib
rotate c =
    let del = c.remove_count % deleted_life in
    let c1 = record c { remove_count = (c.remove_count + 1) % word } in
    let c2 = free_leaf (free_node c1 (c.pending_del_nodes del)) (c.pending_del_leaves del) in
    record c2 {
      pending_del_nodes = store c2.pending_del_nodes del none;
      pending_del_leaves = store c2.pending_del_leaves del none;
    }

unfoldable pub finish_remove : (del : ℕ) → Critnib → Unlinked → Removed
finish_remove del c missing = record { result = some 0; critnib = c }
finish_remove del c (here k value) = record {
  result = some value;
  critnib = record c { root = null; pending_del_leaves = store c.pending_del_leaves del (some k) };
}
finish_remove del c (unlinked value k none t) = record {
  result = some value;
  critnib = record c { root = t; pending_del_leaves = store c.pending_del_leaves del (some k) };
}
finish_remove del c (unlinked value k (some n) t) = record {
  result = some value;
  critnib = record c {
    root = t;
    pending_del_nodes = store c.pending_del_nodes del (some n);
    pending_del_leaves = store c.pending_del_leaves del (some k);
  };
}
finish_remove del c fault = record { result = none; critnib = c }

unfoldable pub critnib_tag_remove : Critnib → (key : ℕ) → Removed
critnib_tag_remove c key =
    if is_null c.root
    then record { result = some 0; critnib = c }
    else finish_remove (c.remove_count % deleted_life) (rotate c) (remove_walk key c.root)
