-- ===== src/Tcradix/Alone.antt =====
-- An insertion of the key that a node keeps in `only_key`.
use ptok.Base.{ℕ, zero, suc, ◌≡◌, ◌≢◌, refl, sym, ap, ◌∙◌, arith, Option, none, some, ==_iff, ==_ne}
use mathlib.Core.Path.{subst}
use ptok.Base.Arrays.{store_self, store_ne}
use ptok.Tcradix.{Slot, vacant, value, subtree, child, Node, node_of, pointer, Pool, sl, alloc_node}
use ptok.Tcradix.Insert.{
  linked, ok, fault, Result, Below, add_child, into_slot, insert_child, insert,
}
use ptok.Tcradix.Valid.{present, In, Sole, Only, AllClean}
use ptok.Tcradix.Fresh.{
  Fresh, alloc_node-IsFresh, pointer_lem, new_leaf-Only, new_node-Only, Sole-store,
}

-- the node still has that one key, with the new value
pub record Keeps (lev key v : ℕ) (r : Result) : Type 0 where
  pub only : Only lev key v r.node
  pub clean : AllClean r.pool.deleted_node
  pub sound : r.status ≢ fault

-- and after `insert_child` returned 0 the key is below it
pub record KeepsBelow (lev key v : ℕ) (r : Result) : Type 0 where
  pub keeps : Keeps (suc lev) key v r
  pub made : r.status ≡ ok → present (r.node.nodes (sl key (suc lev))) ≡ 1

module _ (key v w : ℕ) (some_key : key ≢ 0) (some_value : v ≢ 0) where
  linked-KeepsBelow :
      (lev : ℕ) (n : Node) (q : Pool) (m : Node)
      → Sole (In (Only lev key w)) (suc lev) key n
      → n.only_val ≡ v
      → n.nodes (sl key (suc lev)) ≡ vacant
      → AllClean q.deleted_node
      → Only lev key v m
      → KeepsBelow lev key v (linked n (sl key (suc lev)) m q)
  linked-KeepsBelow lev n q m s e empty c o = record {
    keeps = record {
      only = (
        Sole-store (Only lev key w) (Only lev key v) (suc lev) key n m s o _
            (omega (arith, s.counted, ap present empty)),
        e,
      );
      clean = c;
      sound = λ x. cc;
    };
    made = λ _. rw (store_self n.nodes (sl key (suc lev)) (child m));
  }

  add_child-KeepsBelow :
      (lev : ℕ) (below : Below) (n : Node)
      → Sole (In (Only lev key w)) (suc lev) key n
      → n.only_val ≡ v
      → n.nodes (sl key (suc lev)) ≡ vacant
      → (o : Option Node) (q : Pool) → Fresh o
      → AllClean q.deleted_node
      → KeepsBelow lev key v
          (add_child lev below n (sl key (suc lev)) key v (record { node = o; pool = q }))
  add_child-KeepsBelow lev below n s e empty none q f c = record {
    keeps = record {
      only = (
        record {
          own = s.own;
          slot = subst (In (Only lev key v)) (sym empty) tt;
          rest = s.rest;
          counted = s.counted;
        },
        e,
      );
      clean = c;
      sound = λ x. cc;
    };
    made = λ x. cc;
  }
  add_child-KeepsBelow zero below n s e empty (some m) q f c =
      linked-KeepsBelow 0 n q _ s e empty c (new_leaf-Only m f key v some_value)
  add_child-KeepsBelow (suc lev) below n s e empty (some m) q f c =
      rw (==_ne key 0 some_key)
        (linked-KeepsBelow (suc lev) n q _ s e empty c (new_node-Only m f key v some_value lev))

  into_slot-KeepsBelow :
      (lev : ℕ) (below : Below) (p : Pool) (n : Node)
      → ((q : Pool) (m : Node)
          → AllClean q.deleted_node
          → Only lev key w m
          → Keeps lev key v (below q m key v))
      → AllClean p.deleted_node
      → Sole (In (Only lev key w)) (suc lev) key n
      → n.only_val ≡ v
      → (slot : Slot) → n.nodes (sl key (suc lev)) ≡ slot
      → KeepsBelow lev key v (into_slot lev below p n (sl key (suc lev)) key v slot)
  into_slot-KeepsBelow lev below p n ih c s e vacant empty =
      let (f, rest) = alloc_node-IsFresh p c in
      add_child-KeepsBelow lev below n s e empty (alloc_node p).node (alloc_node p).pool f rest
  into_slot-KeepsBelow lev below p n ih c s e (value x) there =
      absurd (subst (In (Only lev key w)) there s.slot)
  into_slot-KeepsBelow lev below p n ih c s e (subtree a k x d nodes) there =
      let k = ih p (node_of a k x d nodes) c (subst (In (Only lev key w)) there s.slot) in
      record {
        keeps = record {
          only = (
            Sole-store (Only lev key w) (Only lev key v) (suc lev) key n _ s k.only n.nchildren
                (s.counted ∙ ap present there),
            e,
          );
          clean = k.clean;
          sound = k.sound;
        };
        made = λ _. rw (store_self n.nodes (sl key (suc lev)) (child _));
      }

  pub insert_child-KeepsBelow :
      (lev : ℕ) (below : Below) (p : Pool) (n : Node)
      → ((q : Pool) (m : Node)
          → AllClean q.deleted_node
          → Only lev key w m
          → Keeps lev key v (below q m key v))
      → AllClean p.deleted_node
      → Sole (In (Only lev key w)) (suc lev) key n
      → n.only_val ≡ v
      → KeepsBelow lev key v (insert_child lev below p n key v)
  unfolding insert_child
  insert_child-KeepsBelow lev below p n ih c s e =
      into_slot-KeepsBelow lev below p n ih c s e (n.nodes (sl key (suc lev))) refl

-- An insertion of the key that a node keeps gives it the new value, at every level, even where it
-- runs out of memory.
pub insert-Keeps :
    (lev key v w : ℕ) (p : Pool) (n : Node)
    → key ≢ 0
    → v ≢ 0
    → AllClean p.deleted_node
    → Only lev key w n
    → Keeps lev key v (insert lev p n key v)
unfolding insert
insert-Keeps zero key v w p n some_key some_value c s = record {
  only = record {
    own = s.own;
    slot = store_self n.nodes (sl key 0) (pointer v) ∙ pointer_lem v some_value;
    rest = λ i q ne. store_ne n.nodes (sl key 0) i (pointer v) ne ∙ s.rest i q ne;
    counted =
        rw (store_self n.nodes (sl key 0) (pointer v), pointer_lem v some_value, s.slot)
          (s.counted ∙ ap present s.slot);
  };
  clean = c;
  sound = λ x. cc;
}
insert-Keeps (suc lev) key v w p n some_key some_value c s =
    rw (==_ne n.only_key 0 (λ x. some_key (sym s.0.own ∙ x)), (==_iff n.only_key key).1 s.0.own)
      (insert_child-KeepsBelow key v w some_key some_value lev (insert lev) p
        (record n { only_val = v })
        (λ q m d o. insert-Keeps lev key v w q m some_key some_value d o) c
        (record { own = s.0.own; slot = s.0.slot; rest = s.0.rest; counted = s.0.counted })
        refl).keeps
