-- ===== src/Tcradix/Spread.antt =====
-- `insert_child` at an open node.
use ptok.Base.{
  ℕ, zero, suc, ◌+◌, ◌*◌, ◌≡◌, ◌≢◌, refl, sym, ap, ◌∙◌, Option, none, some, ==_iff, ==_ne, eq-cases,
  inl, inr,
}
use mathlib.Core.Path.{subst}
use ptok.Tcradix.{Slot, vacant, value, subtree, Node, node_of, Pool, sl, alloc_node}
use ptok.Tcradix.Insert.{Below, fill, add_child, into_slot, insert_child}
use ptok.Tcradix.Get.{get_walk}
use ptok.Tcradix.Valid.{upper, sl-lt, upper_of_path, In, Branch, Valid, AllClean, Zeroed}
use ptok.Tcradix.Walk.{Change, get_leaf-Only, get_walk-Only}
use ptok.Tcradix.Fresh.{Fresh, alloc_node-IsFresh, new_leaf, new_leaf-Only, new_node, new_node-Only}
use ptok.Tcradix.Grow.{Inserts, Only-Leaf, Only-Valid}
use ptok.Tcradix.Link.{
  unchanged, Zeroed-Branch, in_child-Inserts, linked-Inserts, after_zero-Inserts,
}

-- what `insert` does one level down
abbrev pub BelowInserts : (lev key v : ℕ) → Below → Type 0
BelowInserts lev key v below =
    (path : ℕ) (q : Pool) (m : Node)
    → AllClean q.deleted_node
    → Valid lev path m
    → upper key (suc lev) ≡ path
    → Inserts lev path m key v (below q m key v)

fill-Inserts :
    (lev path key v : ℕ) (below : Below) (n m : Node) (q : Pool)
    → Branch (Valid lev) path n
    → v ≢ 0
    → upper key (suc (suc lev)) ≡ path
    → n.nodes (sl key (suc lev)) ≡ vacant
    → BelowInserts lev key v below
    → AllClean q.deleted_node
    → Zeroed m
    → Inserts (suc lev) path n key v (fill lev below n (sl key (suc lev)) m q key v)
fill-Inserts zero path key v below n m q b some_value on e ih c z =
    let o = new_leaf-Only m z key v some_value in
    let child_path = upper_of_path key 1 path on in
    linked-Inserts 0 path key v n b some_value on (new_leaf m key v) q e c
      (Only-Leaf _ key v (new_leaf m key v) some_value child_path o)
      (get_leaf-Only key v _ (new_leaf m key v) child_path o)
fill-Inserts (suc lev) path key v below n m q b some_value on e ih c z =
    let i = sl key (suc (suc lev)) in
    let child_path : upper key (suc (suc lev)) ≡ 16 * path + i =
      upper_of_path key (suc (suc lev)) path on in
    elim (eq-cases key 0) [
      | inr ne ↦
          let o = new_node-Only m z key v some_value lev in
          rw (==_ne key 0 ne) (
            linked-Inserts (suc lev) path key v n b some_value on (new_node m key v) q e c
              (Only-Valid (suc lev) (16 * path + i) key v (new_node m key v) ne some_value
                child_path o)
              (get_walk-Only (suc lev) key v (16 * path + i) (new_node m key v) ne child_path o))
      | inl zero_key ↦
          let (open_child, found) = Zeroed-Branch lev (16 * path + i) v m z in
          let fresh : new_node m key v ≡ new_node m 0 v = ap (λ x. new_node m x v) zero_key in
          let h =
            ih (16 * path + i) q (new_node m key v) c
              (subst (Valid (suc lev) (16 * path + i)) (sym fresh) (inl open_child)) child_path in
          rw ((==_iff key 0).1 zero_key) (
            after_zero-Inserts (suc lev) path key v n b some_value on _ _ _ e h.sound h.clean
              h.valid
              (λ k x.
                subst
                  (λ t.
                    Change (below q (new_node m key v) key v).status key v k t
                      (get_walk (suc lev) k (below q (new_node m key v) key v).node))
                  (ap (get_walk (suc lev) k) fresh ∙ found k) (h.change k x)))
    ]

add_child-Inserts :
    (lev path key v : ℕ) (below : Below) (n : Node) (o : Option Node) (q : Pool)
    → Branch (Valid lev) path n
    → v ≢ 0
    → upper key (suc (suc lev)) ≡ path
    → n.nodes (sl key (suc lev)) ≡ vacant
    → BelowInserts lev key v below
    → AllClean q.deleted_node
    → Fresh o
    → Inserts
        (suc lev)
        path
        n
        key
        v
        (add_child lev below n (sl key (suc lev)) key v (record { node = o; pool = q }))
add_child-Inserts lev path key v below n none q b some_value on e ih c f =
    unchanged (suc lev) path key v n q (inl b) c
add_child-Inserts lev path key v below n (some m) q b some_value on e ih c f =
    fill-Inserts lev path key v below n m q b some_value on e ih c f

into_slot-Inserts :
    (lev path key v : ℕ) (below : Below) (n : Node) (p : Pool)
    → Branch (Valid lev) path n
    → v ≢ 0
    → upper key (suc (suc lev)) ≡ path
    → BelowInserts lev key v below
    → AllClean p.deleted_node
    → (s : Slot) → n.nodes (sl key (suc lev)) ≡ s
    → Inserts (suc lev) path n key v (into_slot lev below p n (sl key (suc lev)) key v s)
into_slot-Inserts lev path key v below n p b some_value on ih c vacant e =
    let (f, rest) = alloc_node-IsFresh p c in
    add_child-Inserts lev path key v below n (alloc_node p).node (alloc_node p).pool b some_value on
      e ih rest f
into_slot-Inserts lev path key v below n p b some_value on ih c (value w) e = absurd (
    subst (In (Valid lev (16 * path + sl key (suc lev)))) e
      (b.children (sl key (suc lev)) (sl-lt key (suc lev))))
into_slot-Inserts lev path key v below n p b some_value on ih c (subtree a k w d nodes) e =
    let i = sl key (suc lev) in
    in_child-Inserts lev path key v n b some_value on (node_of a k w d nodes) _ e (
      ih (16 * path + i) p (node_of a k w d nodes) c
        (subst (In (Valid lev (16 * path + i))) e (b.children i (sl-lt key (suc lev))))
        (upper_of_path key (suc lev) path on))

pub insert_child-Inserts :
    (lev path key v : ℕ) (below : Below) (n : Node) (p : Pool)
    → Branch (Valid lev) path n
    → v ≢ 0
    → upper key (suc (suc lev)) ≡ path
    → BelowInserts lev key v below
    → AllClean p.deleted_node
    → Inserts (suc lev) path n key v (insert_child lev below p n key v)
unfolding insert_child
insert_child-Inserts lev path key v below n p b some_value on ih c =
    into_slot-Inserts lev path key v below n p b some_value on ih c (n.nodes (sl key (suc lev)))
      refl
