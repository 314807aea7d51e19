-- ===== src/Tcradix/Insertion.antt =====
-- `insert` at any well-formed node.
use ptok.Base.{
  ℕ, zero, suc, ◌+◌, ◌*◌, ◌≡◌, ◌≢◌, refl, sym, ap, ◌∙◌, arith, some, false, ◌==◌, ==_iff, ==_ne,
  eq-cases, inl, inr, if◌then◌else◌,
}
use mathlib.Core.Path.{subst}
use ptok.Tcradix.{Slot, vacant, value, subtree, Node, Pool, sl}
use ptok.Tcradix.Insert.{Status, ok, enomem, fault, insert_child, materialized, insert_node, insert}
use ptok.Tcradix.Get.{follow, get_walk}
use ptok.Tcradix.Valid.{
  upper, sl-lt, upper_of_path, present, In, Only, Branch, Alone, Valid, AllClean,
}
use ptok.Tcradix.Walk.{Change, Change-alone, get_walk-Only, get_walk-open, count_one}
use ptok.Tcradix.Alone.{insert-Keeps, insert_child-KeepsBelow}
use ptok.Tcradix.Grow.{Inserts, Only-Valid, insert_leaf-Inserts}
use ptok.Tcradix.Spread.{BelowInserts, insert_child-Inserts}

module _ (lev path key v : ℕ) (n : Node) (some_value : v ≢ 0)
    (on_path : upper key (suc (suc lev)) ≡ path) (a : Alone (suc lev) path n) where
  -- the node keeps the same key
  same_key-Inserts :
      (p : Pool)
      → AllClean p.deleted_node
      → n.only_key ≡ key
      → Inserts
          (suc lev)
          path
          n
          key
          v
          (insert_child lev (insert lev) p (record n { only_val = v }) key v)
  same_key-Inserts p c same =
      let some_key : key ≢ 0 = λ x. a.some_key (same ∙ x) in
      let own : Only (suc lev) key n.only_val n =
        subst (λ x. Only (suc lev) x n.only_val n) same a.only in
      let kb =
        insert_child-KeepsBelow key v n.only_val some_key some_value lev (insert lev) p
          (record n { only_val = v })
          (λ q m d o. insert-Keeps lev key v n.only_val q m some_key some_value d o) c
          (record {
            own = own.0.own;
            slot = own.0.slot;
            rest = own.0.rest;
            counted = own.0.counted;
          })
          refl in
      let k = kb.keeps in
      record {
        valid = Only-Valid (suc lev) path key v _ some_key some_value on_path k.only;
        clean = k.clean;
        sound = k.sound;
        made = λ x y. omega (arith, y, k.only.0.counted, kb.made x);
        change = λ x q.
            Change-alone _ key v n.only_val x _ _ k.sound
              (get_walk-Only (suc lev) key n.only_val path n some_key on_path own x q)
              (get_walk-Only (suc lev) key v path _ some_key on_path k.only x q);
      }

-- nodes below a node that has one key
In-Valid :
    (lev path key v : ℕ) (s : Slot)
    → key ≢ 0
    → v ≢ 0
    → upper key (suc lev) ≡ path
    → In (Only lev key v) s
    → In (Valid lev path) s
In-Valid lev path key v vacant some_key some_value e h = tt
In-Valid lev path key v (value w) some_key some_value e h = h
In-Valid lev path key v (subtree a k w c nodes) some_key some_value e h =
    Only-Valid lev path key v _ some_key some_value e h

follow-Only :
    (lev path key v : ℕ) (s : Slot)
    → key ≢ 0
    → upper key (suc lev) ≡ path
    → In (Only lev key v) s
    → present s ≡ 1
    → (k : ℕ) → upper k (suc lev) ≡ path
    → follow (get_walk lev k) s ≡ (if key == k then some v else some 0)
follow-Only lev path key v vacant some_key e h there k q = absurd (omega arith)
follow-Only lev path key v (value w) some_key e h there k q = absurd h
follow-Only lev path key v (subtree a x w c nodes) some_key e h there k q =
    get_walk-Only lev key v path _ some_key e h k q

-- the node that has one key, opened: its key is below it
module _ (lev path key v : ℕ) (m : Node) (some_key : key ≢ 0) (some_value : v ≢ 0)
    (on_path : upper key (suc (suc lev)) ≡ path) (o : Only (suc lev) key v m)
    (made : present (m.nodes (sl key (suc lev))) ≡ 1) where
  abbrev opened : Node
  opened = record m { only_key = 0 }

  abbrev i : ℕ
  i = sl key (suc lev)

  child_path : upper key (suc lev) ≡ 16 * path + i
  child_path = upper_of_path key (suc lev) path on_path

  pub opened-Branch : Branch (Valid lev) path opened
  opened-Branch = record {
    open_node = refl;
    counted = o.0.counted ∙ sym (count_one m.nodes i (sl-lt key (suc lev)) o.0.rest);
    children = λ j p. elim (eq-cases j i) [
      | inl same ↦
          subst (λ x. In (Valid lev (16 * path + x)) (m.nodes x)) (sym same)
            (In-Valid lev (16 * path + i) key v (m.nodes i) some_key some_value child_path o.0.slot)
      | inr ne ↦ subst (In (Valid lev (16 * path + j))) (sym (o.0.rest j p ne)) tt
    ];
  }

  get_walk-opened :
      (k : ℕ)
      → upper k (suc (suc lev)) ≡ path
      → get_walk (suc lev) k opened ≡ (if key == k then some v else some 0)
  get_walk-opened k q = get_walk-open lev k opened refl ∙ elim (eq-cases (sl k (suc lev)) i) [
    | inl same ↦
        ap (λ x. follow (get_walk lev k) (m.nodes x)) same
        ∙ follow-Only lev (16 * path + i) key v (m.nodes i) some_key child_path o.0.slot made k
            (upper_of_path k (suc lev) path q ∙ ap (λ (x : ℕ). 16 * path + x) same)
    | inr ne ↦
        ap (follow (get_walk lev k)) (o.0.rest (sl k (suc lev)) (sl-lt k (suc lev)) ne)
        ∙ rw (==_ne key k (λ e. ne (ap (λ x. sl x (suc lev)) (sym e))))
  ]

module _ (lev path key v : ℕ) (n : Node) (some_value : v ≢ 0)
    (on_path : upper key (suc (suc lev)) ≡ path) (a : Alone (suc lev) path n)
    (ih : BelowInserts lev key v (insert lev)) where
  materialized-Inserts :
      (m : Node) (q : Pool) (st : Status)
      → st ≢ fault
      → AllClean q.deleted_node
      → Only (suc lev) n.only_key n.only_val m
      → (st ≡ ok → present (m.nodes (sl n.only_key (suc lev))) ≡ 1)
      → Inserts (suc lev) path n key v (materialized (insert_child lev (insert lev)) key v m q st)
  materialized-Inserts m q ok sound c o made =
      let b =
        opened-Branch lev path n.only_key n.only_val m a.some_key a.some_value a.on_path o
          (made refl) in
      let h =
        insert_child-Inserts lev path key v (insert lev) (record m { only_key = 0 }) q b some_value
          on_path ih c in
      record {
        valid = h.valid;
        clean = h.clean;
        sound = h.sound;
        made = h.made;
        change = λ k x.
            subst
              (λ t.
                Change (insert_child lev (insert lev) q (record m { only_key = 0 }) key v).status
                  key v k t
                  (get_walk (suc lev) k
                    (insert_child lev (insert lev) q (record m { only_key = 0 }) key v).node))
              (get_walk-opened lev path n.only_key n.only_val m a.some_key a.some_value a.on_path o
                  (made refl) k x
                ∙ sym (
                    get_walk-Only (suc lev) n.only_key n.only_val path n a.some_key a.on_path a.only
                      k x))
              (h.change k x);
      }
  materialized-Inserts m q enomem sound c o made = record {
    valid = Only-Valid (suc lev) path n.only_key n.only_val m a.some_key a.some_value a.on_path o;
    clean = c;
    sound = sound;
    made = λ x. cc;
    change = λ k x ne.
        get_walk-Only (suc lev) n.only_key n.only_val path m a.some_key a.on_path o k x
        ∙ sym
            (get_walk-Only (suc lev) n.only_key n.only_val path n a.some_key a.on_path a.only k x);
  }
  materialized-Inserts m q fault sound c o made = absurd (sound refl)

  -- the node is opened first
  other_key-Inserts :
      (p : Pool)
      → AllClean p.deleted_node
      → Inserts
          (suc lev)
          path
          n
          key
          v
          (insert_node (insert_child lev (insert lev)) p n key v false false)
  other_key-Inserts p c =
      let k =
        insert_child-KeepsBelow n.only_key n.only_val n.only_val a.some_key a.some_value lev
          (insert lev) p n
          (λ q m d o.
            insert-Keeps lev n.only_key n.only_val n.only_val q m a.some_key a.some_value d o)
          c a.only.0 a.only.1 in
      materialized-Inserts _ _ _ k.keeps.sound k.keeps.clean k.keeps.only k.made

-- At a well-formed node with clean nodes waiting for reuse, `insert` of a key on the node's path
-- with a value that is not NULL returns 0 or ENOMEM and leaves a well-formed node and clean nodes.
-- After 0 a lookup gives the new value at the key and what it gave before elsewhere; after ENOMEM
-- the lookups of the other keys are unchanged.
pub insert-Inserts :
    (lev path key v : ℕ) (p : Pool) (n : Node)
    → v ≢ 0
    → AllClean p.deleted_node
    → Valid lev path n
    → upper key (suc lev) ≡ path
    → Inserts lev path n key v (insert lev p n key v)
unfolding insert
insert-Inserts zero path key v p n some_value c leaf on =
    insert_leaf-Inserts path n leaf key v some_value on p c
insert-Inserts (suc lev) path key v p n some_value c (inl b) on =
    rw ((==_iff n.only_key 0).1 b.open_node) (
      insert_child-Inserts lev path key v (insert lev) n p b some_value on
        (λ w q m d x e. insert-Inserts lev w key v q m some_value d x e) c)
insert-Inserts (suc lev) path key v p n some_value c (inr a) on = elim (eq-cases n.only_key key) [
  | inl same ↦
      rw (==_ne n.only_key 0 a.some_key, (==_iff n.only_key key).1 same)
        (same_key-Inserts lev path key v n some_value on a p c same)
  | inr ne ↦
      rw (==_ne n.only_key 0 a.some_key, ==_ne n.only_key key ne)
        (other_key-Inserts lev path key v n some_value on a
          (λ w q m d x e. insert-Inserts lev w key v q m some_value d x e) p c)
]
