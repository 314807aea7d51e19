-- ===== src/Tcradix/Stock.antt =====
-- How much memory an insertion needs.
use ptok.Base.{
  ℕ, zero, suc, ◌+◌, ◌*◌, ◌≤◌, ◌≡◌, ◌≢◌, refl, sym, ap, ◌∙◌, arith, Option, none, some, List, [],
  ◌∷◌, false, ==_iff, ==_ne, inl, inr, eq-cases,
}
use mathlib.Core.Path.{subst}
use ptok.Base.Arrays.{successes}
use ptok.Tcradix.{
  Slot, vacant, value, subtree, Node, node_of, Pool, sl, zalloc, reclaim, alloc_node,
}
use ptok.Tcradix.Insert.{
  Status, ok, enomem, fault, Result, Below, after_zero, add_child, into_slot, insert_child,
  materialized, insert_node, insert,
}
use ptok.Tcradix.Valid.{upper, sl-lt, upper_of_path, In, Sole, Only, Branch, Alone, Valid, AllClean}
use ptok.Tcradix.Fresh.{Fresh, alloc_node-IsFresh, new_node}
use ptok.Tcradix.Alone.{insert-Keeps, insert_child-KeepsBelow}
use ptok.Tcradix.Link.{Zeroed-Branch}
use ptok.Tcradix.Insertion.{opened-Branch}

abbrev pub waiting : List Node → ℕ
waiting [] = 0
waiting (n ∷ l) = suc (waiting l)

-- how many calls of `alloc_node` give a node
abbrev pub stock : Pool → ℕ
stock p = waiting p.deleted_node + successes p.supply

-- a node was given, and there are `spare` more
abbrev Given : ℕ → Option Node → Pool → Type 0
Given spare none q = ⊥
Given spare (some m) q = spare ≤ stock q

zalloc-Given :
    (spare : ℕ) (p : Pool) (l : List (Option ℕ))
    → suc spare ≤ waiting p.deleted_node + successes l
    → waiting p.deleted_node ≡ 0
    → Given spare (zalloc p l).node (zalloc p l).pool
zalloc-Given spare p [] h e = omega (arith, h, e)
zalloc-Given spare p (none ∷ l) h e = omega (arith, h, e)
zalloc-Given spare p (some a ∷ l) h e = omega (arith, h, e)

reclaim-Given :
    (spare : ℕ) (p : Pool) (l : List Node)
    → p.deleted_node ≡ l
    → suc spare ≤ stock p
    → Given spare (reclaim p l).node (reclaim p l).pool
reclaim-Given spare p [] e h = zalloc-Given spare p p.supply h (ap waiting e)
reclaim-Given spare p (n ∷ l) e h = omega (arith, h, ap waiting e)

alloc_node-Given :
    (spare : ℕ) (p : Pool)
    → suc spare ≤ stock p
    → Given spare (alloc_node p).node (alloc_node p).pool
unfolding alloc_node
alloc_node-Given spare p h = reclaim-Given spare p p.deleted_node refl h

pub record Succeeds (spare : ℕ) (r : Result) : Type 0 where
  pub returned : r.status ≡ ok
  pub left : spare ≤ stock r.pool

-- the key that a node keeps needs one node at most
module _ (key v w spare : ℕ) (some_key : key ≢ 0) where
  add_child-Succeeds :
      (lev : ℕ) (below : Below) (n : Node) (i : ℕ) (o : Option Node) (q : Pool)
      → Given spare o q
      → Succeeds spare (add_child lev below n i key v (record { node = o; pool = q }))
  add_child-Succeeds lev below n i none q h = absurd h
  add_child-Succeeds zero below n i (some m) q h = record { returned = refl; left = h }
  add_child-Succeeds (suc lev) below n i (some m) q h =
      rw (==_ne key 0 some_key) (record { returned = refl; left = h })

  into_slot-Succeeds :
      (lev : ℕ) (below : Below) (p : Pool) (n : Node)
      → ((m : Node) → Only lev key w m → Succeeds spare (below p m key v))
      → suc spare ≤ stock p
      → (slot : Slot) → In (Only lev key w) slot
      → Succeeds spare (into_slot lev below p n (sl key (suc lev)) key v slot)
  into_slot-Succeeds lev below p n ih h vacant s =
      add_child-Succeeds lev below n (sl key (suc lev)) (alloc_node p).node (alloc_node p).pool
        (alloc_node-Given spare p h)
  into_slot-Succeeds lev below p n ih h (value x) s = absurd s
  into_slot-Succeeds lev below p n ih h (subtree a k x d nodes) s =
      let r = ih (node_of a k x d nodes) s in record { returned = r.returned; left = r.left }

  insert_child-Succeeds :
      (lev : ℕ) (below : Below) (p : Pool) (n : Node)
      → ((m : Node) → Only lev key w m → Succeeds spare (below p m key v))
      → suc spare ≤ stock p
      → Sole (In (Only lev key w)) (suc lev) key n
      → Succeeds spare (insert_child lev below p n key v)
  unfolding insert_child
  insert_child-Succeeds lev below p n ih h s =
      into_slot-Succeeds lev below p n ih h (n.nodes (sl key (suc lev))) s.slot

  insert-Succeeds :
      (lev : ℕ) (p : Pool) (n : Node)
      → suc spare ≤ stock p
      → Only lev key w n
      → Succeeds spare (insert lev p n key v)
  unfolding insert
  insert-Succeeds zero p n h o = record { returned = refl; left = omega (arith, h) }
  insert-Succeeds (suc lev) p n h o =
      rw (==_ne n.only_key 0 (λ x. some_key (sym o.0.own ∙ x)), (==_iff n.only_key key).1 o.0.own)
        (insert_child-Succeeds lev (insert lev) p (record n { only_val = v })
          (λ m o1. insert-Succeeds lev p m h o1) h
          (record { own = o.0.own; slot = o.0.slot; rest = o.0.rest; counted = o.0.counted }))

after_zero-Succeeds :
    (spare lev : ℕ) (n : Node) (i : ℕ) (m : Node) (q : Pool) (st : Status)
    → Succeeds spare (record { status = st; node = m; pool = q })
    → Succeeds spare (after_zero lev n i m q st)
after_zero-Succeeds spare lev n i m q ok s = record { returned = refl; left = s.left }
after_zero-Succeeds spare lev n i m q enomem s = absurd (cc (s.returned))
after_zero-Succeeds spare lev n i m q fault s = absurd (cc (s.returned))

-- `insert` one level down, with two nodes for each level, and `spare` left
abbrev pub Suffices : (lev key v : ℕ) → Type 0
Suffices lev key v =
    (spare path : ℕ) (q : Pool) (m : Node)
    → AllClean q.deleted_node
    → Valid lev path m
    → upper key (suc lev) ≡ path
    → spare + 2 * lev ≤ stock q
    → Succeeds spare (insert lev q m key v)

module _ (key v spare : ℕ) (some_value : v ≢ 0) where
  -- the new child, after `alloc_node`
  new_child-Succeeds :
      (lev : ℕ) (n : Node) (i : ℕ) (o : Option Node) (q : Pool)
      → Suffices lev key v
      → Given (spare + 2 * lev) o q
      → Fresh o
      → AllClean q.deleted_node
      → Succeeds spare (add_child lev (insert lev) n i key v (record { node = o; pool = q }))
  new_child-Succeeds lev n i none q ih h f c = absurd h
  new_child-Succeeds zero n i (some m) q ih h f c = record {
    returned = refl;
    left = omega (arith, h);
  }
  new_child-Succeeds (suc lev) n i (some m) q ih h f c = elim (eq-cases key 0) [
    | inl e ↦
        let m1 = new_node m key v in
        let r = insert (suc lev) q m1 key v in
        let path = upper key (suc (suc lev)) in
        let b : Branch (Valid lev) path m1 =
          subst (λ x. Branch (Valid lev) path (new_node m x v)) (sym e)
            (Zeroed-Branch lev path v m f).0 in
        rw ((==_iff key 0).1 e) (
          after_zero-Succeeds spare (suc lev) n i r.node r.pool r.status
            (ih spare path q m1 c (inl b) refl h))
    | inr ne ↦ rw (==_ne key 0 ne) (record { returned = refl; left = omega (arith, h) })
  ]

  any_slot-Succeeds :
      (lev path : ℕ) (p : Pool) (n : Node)
      → upper key (suc (suc lev)) ≡ path
      → Suffices lev key v
      → AllClean p.deleted_node
      → suc (spare + 2 * lev) ≤ stock p
      → (slot : Slot) → In (Valid lev (16 * path + sl key (suc lev))) slot
      → Succeeds spare (into_slot lev (insert lev) p n (sl key (suc lev)) key v slot)
  any_slot-Succeeds lev path p n on ih c h vacant s =
      let (f, rest) = alloc_node-IsFresh p c in
      new_child-Succeeds lev n (sl key (suc lev)) (alloc_node p).node (alloc_node p).pool ih
        (alloc_node-Given (spare + 2 * lev) p h) f rest
  any_slot-Succeeds lev path p n on ih c h (value x) s = absurd s
  any_slot-Succeeds lev path p n on ih c h (subtree a k x d nodes) s =
      let r =
        ih spare (16 * path + sl key (suc lev)) p (node_of a k x d nodes) c s
          (upper_of_path key (suc lev) path on) (omega (arith, h)) in
      record { returned = r.returned; left = r.left }

  any_child-Succeeds :
      (lev path : ℕ) (p : Pool) (n : Node)
      → upper key (suc (suc lev)) ≡ path
      → Suffices lev key v
      → AllClean p.deleted_node
      → suc (spare + 2 * lev) ≤ stock p
      → Branch (Valid lev) path n
      → Succeeds spare (insert_child lev (insert lev) p n key v)
  unfolding insert_child
  any_child-Succeeds lev path p n on ih c h b =
      any_slot-Succeeds lev path p n on ih c h (n.nodes (sl key (suc lev)))
        (b.children (sl key (suc lev)) (sl-lt key (suc lev)))

  materialized-Succeeds :
      (lev : ℕ) (q : Pool) (m : Node) (st : Status)
      → st ≡ ok
      → (st ≡ ok
          → Succeeds spare (insert_child lev (insert lev) q (record m { only_key = 0 }) key v))
      → Succeeds spare (materialized (insert_child lev (insert lev)) key v m q st)
  materialized-Succeeds lev q m ok e h = h e
  materialized-Succeeds lev q m enomem e h = absurd (cc)
  materialized-Succeeds lev q m fault e h = absurd (cc)

  other_key-Succeeds :
      (lev path : ℕ) (p : Pool) (n : Node)
      → upper key (suc (suc lev)) ≡ path
      → Suffices lev key v
      → AllClean p.deleted_node
      → spare + 2 * suc lev ≤ stock p
      → Alone (suc lev) path n
      → Succeeds spare (insert_node (insert_child lev (insert lev)) p n key v false false)
  other_key-Succeeds lev path p n on ih c h a =
      let own = n.only_key in
      let old = n.only_val in
      let left : ℕ = suc (spare + 2 * lev) in
      let k =
        insert_child-KeepsBelow own old old a.some_key a.some_value lev (insert lev) p n
          (λ q m d o. insert-Keeps lev own old old q m a.some_key a.some_value d o) c a.only.0
          a.only.1 in
      let s =
        insert_child-Succeeds own old old left a.some_key lev (insert lev) p n
          (λ m o. insert-Succeeds own old old left a.some_key lev p m (omega (arith, h)) o)
          (omega (arith, h)) a.only.0 in
      let m = (insert_child lev (insert lev) p n own old).node in
      materialized-Succeeds lev _ _ _ s.returned (λ e.
        any_child-Succeeds lev path _ _ on ih k.keeps.clean s.left (
          opened-Branch lev path own old m a.some_key a.some_value a.on_path k.keeps.only
            (k.made e)))

-- At a well-formed node at level lev on the key's path, `insert` of a value that is not NULL
-- returns 0 if the pool has at least 2 * lev nodes to give, and takes no more than these.
pub insert-Suffices : (lev key v : ℕ) → v ≢ 0 → Suffices lev key v
unfolding insert
insert-Suffices zero key v some_value spare path p n c valid on h = record {
  returned = refl;
  left = omega (arith, h);
}
insert-Suffices (suc lev) key v some_value spare path p n c (inl b) on h =
    rw ((==_iff n.only_key 0).1 b.open_node) (
      any_child-Succeeds key v spare some_value lev path p n on
        (insert-Suffices lev key v some_value) c (omega (arith, h)) b)
insert-Suffices (suc lev) key v some_value spare path p n c (inr a) on h =
    elim (eq-cases n.only_key key) [
      | inl same ↦
          insert-Succeeds key v n.only_val spare (λ x. a.some_key (same ∙ x)) (suc lev) p n
            (omega (arith, h)) (subst (λ x. Only (suc lev) x n.only_val n) same a.only)
      | inr ne ↦
          rw (==_ne n.only_key 0 a.some_key, ==_ne n.only_key key ne)
            (other_key-Succeeds key v spare some_value lev path p n on
              (insert-Suffices lev key v some_value) c h a)
    ]
