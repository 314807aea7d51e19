-- ===== src/Critnib/Remove.antt =====
-- `critnib_remove`, one step of the structure for the same reason as `critnib_insert`. A node or
-- leaf that leaves the tree waits in its pending slot until the count of removes comes round.
pub mod Scan
pub mod Walk
use ptok.Base.{ℕ, zero, suc, ◌+◌, ◌%◌, Option, none, some, if◌then◌else◌, ◌==◌}
use ptok.Base.Arrays.{store}
use ptok.Word.{word}
use ptok.Critnib.Tree.{Tree, null, leaf, node, Critnib, is_null, slice_index, deleted_life, slnodes}
use ptok.Critnib.Pools.{free_node, free_leaf}

-- the loop over the children with `ochild`
pub data Children : Type 0 where
  nothing : Children
  one : ℕ → Children
  many : Children

unfoldable pub scan_children : (left i : ℕ) → (ℕ → Tree) → Option ℕ → Children
scan_children zero i child none = nothing
scan_children zero i child (some o) = one o
scan_children (suc left) i child none =
    scan_children left (suc i) child (if is_null (child i) then none else some i)
scan_children (suc left) i child (some o) =
    let rest = scan_children left (suc i) child (some o) in if is_null (child i) then rest else many

-- how the walk ends below a node: no such key; the child itself is the leaf, not yet unlinked;
-- the leaf is unlinked, with the node that went with it; or memory that is no part of the structure was read
pub data Unlinked : Type 0 where
  missing : Unlinked
  here : (address value : ℕ) → Unlinked
  unlinked : (value leaf_address : ℕ) → Option ℕ → Tree → Unlinked
  fault : Unlinked

-- `n` has lost the child at `i`; with one child left it goes too
unfoldable pub collapse :
    (address path shift : ℕ) (child : ℕ → Tree) → (k value : ℕ) → Children → Unlinked
collapse a path shift child k value nothing = fault
collapse a path shift child k value (one o) = unlinked value k (some a) (child o)
collapse a path shift child k value many = unlinked value k none (node a path shift child)

unfoldable pub after_child :
    (address path shift : ℕ) (child : ℕ → Tree) (i : ℕ) → Unlinked → Unlinked
after_child a path shift child i missing = missing
after_child a path shift child i (here k value) =
    let rest = store child i null in
    collapse a path shift rest k value (scan_children slnodes 0 rest none)
after_child a path shift child i (unlinked value k n t) =
    unlinked value k n (node a path shift (store child i t))
after_child a path shift child i fault = fault

unfoldable pub remove_walk : (key : ℕ) → Tree → Unlinked
remove_walk key null = missing
remove_walk key (leaf a k v) = if k == key then here a v else missing
remove_walk key (node a path shift child) =
    after_child a path shift child (slice_index key shift)
      (remove_walk key (child (slice_index key shift)))

-- `none` as a result is the fault
pub record Removed : Type 0 where
  pub result : Option ℕ
  pub critnib : Critnib

-- `util_fetch_and_add64(&c->remove_count, 1)`, and the pending slot that this empties
unfoldable pub rotate : Critnib → Critnib
rotate c =
    let del = c.remove_count % deleted_life in
    let c1 = record c { remove_count = (c.remove_count + 1) % word } in
    let c2 = free_leaf (free_node c1 (c.pending_del_nodes del)) (c.pending_del_leaves del) in
    record c2 {
      pending_del_nodes = store c2.pending_del_nodes del none;
      pending_del_leaves = store c2.pending_del_leaves del none;
    }

unfoldable pub finish_remove : (del : ℕ) → Critnib → Unlinked → Removed
finish_remove del c missing = record { result = some 0; critnib = c }
finish_remove del c (here k value) = record {
  result = some value;
  critnib = record c { root = null; pending_del_leaves = store c.pending_del_leaves del (some k) };
}
finish_remove del c (unlinked value k none t) = record {
  result = some value;
  critnib = record c { root = t; pending_del_leaves = store c.pending_del_leaves del (some k) };
}
finish_remove del c (unlinked value k (some n) t) = record {
  result = some value;
  critnib = record c {
    root = t;
    pending_del_nodes = store c.pending_del_nodes del (some n);
    pending_del_leaves = store c.pending_del_leaves del (some k);
  };
}
finish_remove del c fault = record { result = none; critnib = c }

unfoldable pub critnib_remove : Critnib → (key : ℕ) → Removed
critnib_remove c key =
    if is_null c.root
    then record { result = some 0; critnib = c }
    else finish_remove (c.remove_count % deleted_life) (rotate c) (remove_walk key c.root)
