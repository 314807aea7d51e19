-- ===== src/Tcradix/Insert.antt =====
-- `tcradix_insert`, in words of levels: `insert` and `insert_child` of tcradix.c call each other,
-- here `insert_child` at level lev + 1 has `insert` at level lev as an argument.
use ptok.Base.{
  ℕ, zero, suc, ◌+◌, ◌-◌, ◌%◌, none, some, ◌++◌, Bool, true, false, ◌&&◌, if◌then◌else◌, ◌==◌,
}
use mathlib.Core.List.{reverse}
use ptok.Base.Arrays.{store}
use ptok.Word.{word}
use ptok.Tcradix.{
  Slot, vacant, value, subtree, child, node_of, Node, pointer, Pool, Head, levels, top_empty,
  write_poke, sl, Allocated, alloc_node, teardown,
}

-- `fault` is a caller's pointer followed as a node
pub data Status : Type 0 where
  ok : Status
  enomem : Status
  fault : Status

pub record Result : Type 0 where
  pub status : Status
  pub node : Node
  pub pool : Pool

-- `insert` at some level
abbrev pub Below : Type 0
Below = Pool → Node → (key value : ℕ) → Result

-- `nodes[i]` is changed by a call on it
abbrev pub in_child : Node → (i : ℕ) → Result → Result
in_child n i r = record r { node = record n { nodes = store n.nodes i (child r.node) } }

-- `n->nodes[slice] = m; n->nchildren++`
abbrev pub linked : Node → (i : ℕ) → Node → Pool → Result
linked n i m p = record {
  status = ok;
  node = record n { nodes = store n.nodes i (child m); nchildren = (n.nchildren + 1) % word };
  pool = p;
}

-- after the recursive insertion of key 0 into the new node at level lev
abbrev pub after_zero : (lev : ℕ) → Node → (i : ℕ) → (m : Node) → Pool → Status → Result
after_zero lev n i m p ok = linked n i m p
after_zero lev n i m p enomem = record {
  status = enomem;
  node = n;
  pool = record p { freed = reverse (teardown lev m) ++ p.freed };
}
after_zero lev n i m p fault = record { status = fault; node = n; pool = p }

-- a new node above level 0, by `!key`
abbrev pub fill_node :
    (lev : ℕ) → Below → Node → (i : ℕ) → (m : Node) → Pool → (key v : ℕ) → Bool → Result
fill_node lev below n i m p key v false = linked n i m p
fill_node lev below n i m p key v true =
    let r = below p m key v in after_zero lev n i r.node r.pool r.status

-- the new node `m`, at level lev
abbrev pub fill : (lev : ℕ) → Below → Node → (i : ℕ) → (m : Node) → Pool → (key v : ℕ) → Result
fill zero below n i m p key v =
    linked n i
      (record m {
        only_key = key;
        only_val = v;
        nchildren = 1;
        nodes = store m.nodes (sl key 0) (pointer v);
      })
      p
fill (suc lev) below n i m p key v =
    fill_node (suc lev) below n i (record m { only_key = key; only_val = v; nchildren = 0 }) p key v
      (key == 0)

abbrev pub add_child : (lev : ℕ) → Below → Node → (i : ℕ) → (key v : ℕ) → Allocated → Result
add_child lev below n i key v a = elim a.node [
  | none ↦ record { status = enomem; node = n; pool = a.pool }
  | some m ↦ fill lev below n i m a.pool key v
]

abbrev pub into_slot : (lev : ℕ) → Below → Pool → Node → (i key v : ℕ) → Slot → Result
into_slot lev below p n i key v vacant = add_child lev below n i key v (alloc_node p)
into_slot lev below p n i key v (value w) = record { status = fault; node = n; pool = p }
into_slot lev below p n i key v (subtree a k w c nodes) =
    in_child n i (below p (node_of a k w c nodes) key v)

-- `insert_child` at level lev + 1
unfoldable pub insert_child : (lev : ℕ) → Below → Below
insert_child lev below p n key v =
    let slice = sl key (suc lev) in into_slot lev below p n slice key v (n.nodes slice)

-- after the has-been-only node is materialized
abbrev pub materialized : Below → (key v : ℕ) → Node → Pool → Status → Result
materialized go key v n p ok = go p (record n { only_key = 0 }) key v
materialized go key v n p enomem = record { status = enomem; node = n; pool = p }
materialized go key v n p fault = record { status = fault; node = n; pool = p }

-- above level 0, by `!n->only_key` and `n->only_key == key`
abbrev pub insert_node : Below → Pool → Node → (key v : ℕ) → Bool → Bool → Result
insert_node go p n key v true same = go p n key v
insert_node go p n key v false true = go p (record n { only_val = v }) key v
insert_node go p n key v false false =
    let r = go p n n.only_key n.only_val in materialized go key v r.node r.pool r.status

-- `if (!n->nodes[slice]) n->nchildren++`
abbrev pub more_children : ℕ → Slot → ℕ
more_children n vacant = (n + 1) % word
more_children n (value w) = n
more_children n (subtree a k w c nodes) = n

unfoldable pub insert : (lev : ℕ) → Below
insert zero p n key v =
    let slice = sl key 0 in
    record {
      status = ok;
      node = record n {
        nchildren = more_children n.nchildren (n.nodes slice);
        nodes = store n.nodes slice (pointer v);
      };
      pool = p;
    }
insert (suc lev) p n key v =
    insert_node (insert_child lev (insert lev)) p n key v (n.only_key == 0) (n.only_key == key)

pub record Inserted : Type 0 where
  pub status : Status
  pub head : Head

-- the first key of an empty structure
abbrev pub first_key : Node → (key v : ℕ) → Node
first_key n key v =
    if n.only_key == top_empty && n.nchildren == 0
    then record n { only_val = v; only_key = key }
    else n

abbrev pub insert_value : Head → (key v : ℕ) → Bool → Inserted
insert_value h key v true = record { status = ok; head = h }
insert_value h key v false =
    let r = insert (levels - 1) h.pool (first_key h.root key v) key v in
    record {
      status = r.status;
      head = write_poke (record (write_poke h) { root = r.node; pool = r.pool });
    }

unfoldable pub tcradix_insert : Head → (key v : ℕ) → Inserted
tcradix_insert h key v = insert_value h key v (v == 0)
