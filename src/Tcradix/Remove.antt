-- ===== src/Tcradix/Remove.antt =====
-- `tcradix_remove`.
use ptok.Base.{
  ℕ, zero, suc, ◌+◌, ◌-◌, ◌%◌, Option, none, some, ◌∷◌, Bool, true, false, ◌&&◌, not, if◌then◌else◌,
  ◌==◌,
}
use ptok.Base.Arrays.{store}
use ptok.Word.{word}
use ptok.Tcradix.{
  Slot, vacant, value, subtree, child, node_of, Node, Pool, Head, levels, write_poke, sl,
}

-- `emptied` is what `nremove` returns, `found` is `*value`, `none` after a caller's pointer was
-- followed as a node
pub record Removal : Type 0 where
  pub emptied : Bool
  pub found : Option ℕ
  pub node : Node
  pub pool : Pool

abbrev pub minus_one : ℕ → ℕ
minus_one n = (n + word - 1) % word

-- `!n->nchildren && !n->only_key`
abbrev pub is_empty : Node → Bool
is_empty n = n.nchildren == 0 && n.only_key == 0

-- level 0
abbrev pub clear_value : Pool → (i : ℕ) → Node → (found : Option ℕ) → Slot → Removal
clear_value p i n found vacant = record { emptied = false; found = found; node = n; pool = p }
clear_value p i n found (value v) =
    let n1 = record n { nodes = store n.nodes i vacant; nchildren = minus_one n.nchildren } in
    record { emptied = is_empty n1; found = some v; node = n1; pool = p }
clear_value p i n found (subtree a k v c nodes) =
    let n1 = record n { nodes = store n.nodes i vacant; nchildren = minus_one n.nchildren } in
    record { emptied = is_empty n1; found = some a; node = n1; pool = p }

-- after the removal below: a node that is empty goes to the pool
abbrev pub after_child : (i : ℕ) → Node → (found : Option ℕ) → (m : Node) → Pool → Bool → Removal
after_child i n found m p false = record {
  emptied = false;
  found = found;
  node = record n { nodes = store n.nodes i (child m) };
  pool = p;
}
after_child i n found m p true =
    let n1 = record n { nodes = store n.nodes i vacant; nchildren = minus_one n.nchildren } in
    record {
      emptied = is_empty n1;
      found = found;
      node = n1;
      pool = record p { deleted_node = record m { only_val = 0 } ∷ p.deleted_node };
    }

-- `below` is `nremove` one level down
abbrev pub remove_in :
    (Pool → Node → Option ℕ → Removal) → Pool → (i : ℕ) → Node → (found : Option ℕ) → Slot → Removal
remove_in below p i n found vacant = record {
  emptied = is_empty n;
  found = found;
  node = n;
  pool = p;
}
remove_in below p i n found (value v) = record { emptied = false; found = none; node = n; pool = p }
remove_in below p i n found (subtree a k v c nodes) =
    let r = below p (node_of a k v c nodes) found in after_child i n r.found r.node r.pool r.emptied

unfoldable pub nremove : (lev key : ℕ) → Pool → Node → Option ℕ → Removal
nremove zero key p n found =
    let own = n.only_key == key && not (key == 0) in
    let n1 = if own then record n { only_key = 0 } else n in
    let slice = sl key 0 in
    clear_value p slice n1 (if own then some n.only_val else found) (n1.nodes slice)
nremove (suc lev) key p n found =
    let own = n.only_key == key && not (key == 0) in
    let n1 = if own then record n { only_key = 0 } else n in
    let slice = sl key (suc lev) in
    remove_in (nremove lev key) p slice n1 (if own then some n.only_val else found) (n1.nodes slice)

pub record Removed : Type 0 where
  pub result : Option ℕ
  pub head : Head

unfoldable pub tcradix_remove : Head → (key : ℕ) → Removed
tcradix_remove h key =
    let r = nremove (levels - 1) key h.pool h.root (some 0) in
    record {
      result = r.found;
      head = write_poke (record (write_poke h) { root = r.node; pool = r.pool });
    }
