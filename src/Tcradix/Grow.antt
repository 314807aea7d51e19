-- ===== src/Tcradix/Grow.antt =====
-- What `insert` does to a well-formed node.
use ptok.Base.{
  ℕ, zero, suc, ◌+◌, ◌<◌, ◌≤◌, ◌≡◌, ◌≢◌, refl, sym, ap, ◌∙◌, arith, ==_ne, ==_refl, eq-cases, inl,
  inr,
}
use mathlib.Core.Path.{subst}
use ptok.Base.Arrays.{store_self, store_ne, store_case}
use ptok.Tcradix.{Slot, vacant, value, subtree, Node, pointer, Pool, slnodes, sl}
use ptok.Tcradix.Insert.{ok, fault, Result, more_children, insert}
use ptok.Tcradix.Get.{get_walk}
use ptok.Tcradix.Valid.{
  upper, sl-lt, upper_of_path, upper-zero, present, IsValue, Only, Leaf, Valid, AllClean,
}
use ptok.Tcradix.Walk.{Change, count-store, count_one, count-le}
use ptok.Tcradix.Fresh.{pointer_lem}

-- The node is well formed after it, the nodes that wait for reuse are clean, and each lookup is
-- as the status says.
pub record Inserts (lev path : ℕ) (n : Node) (key v : ℕ) (r : Result) : Type 0 where
  pub valid : Valid lev path r.node
  pub clean : AllClean r.pool.deleted_node
  pub sound : r.status ≢ fault
  pub made : r.status ≡ ok → r.node.nchildren ≢ 0
  pub change :
      (k : ℕ)
      → upper k (suc lev) ≡ path
      → Change r.status key v k (get_walk lev k n) (get_walk lev k r.node)

-- a node of which only the key of one slot is set is a well-formed leaf
pub Only-Leaf :
    (path key v : ℕ) (n : Node) → v ≢ 0 → upper key 1 ≡ path → Only 0 key v n → Leaf path n
Only-Leaf path key v n some_value e s = record {
  counted = s.counted ∙ sym (count_one n.nodes (sl key 0) (sl-lt key 0) s.rest);
  values = λ i p. elim (eq-cases i (sl key 0)) [
    | inl same ↦ subst IsValue (sym (ap n.nodes same ∙ s.slot)) some_value
    | inr ne ↦ subst IsValue (sym (s.rest i p ne)) tt
  ];
  own = λ ne. rw s.own (e, ap present s.slot);
}

-- a node that has one key is well formed
pub Only-Valid :
    (lev path key v : ℕ) (n : Node)
    → key ≢ 0
    → v ≢ 0
    → upper key (suc lev) ≡ path
    → Only lev key v n
    → Valid lev path n
Only-Valid zero path key v n some_key some_value e o = Only-Leaf path key v n some_value e o
Only-Valid (suc lev) path key v n some_key some_value e o = inr (record {
  some_key = λ x. some_key (sym o.0.own ∙ x);
  on_path = ap (λ x. upper x (suc (suc lev))) o.0.own ∙ e;
  some_value = λ x. some_value (sym o.1 ∙ x);
  only = (
    record {
      own = refl;
      slot = rw (o.0.own, o.1) o.0.slot;
      rest = rw o.0.own o.0.rest;
      counted = rw o.0.own o.0.counted;
    },
    refl,
  );
})

module _ (path : ℕ) (n : Node) (leaf : Leaf path n) (key v : ℕ) (some_value : v ≢ 0)
    (on_path : upper key 1 ≡ path) where
  abbrev i : ℕ
  i = sl key 0

  more_lem :
      (s : Slot)
      → IsValue s
      → n.nchildren + 1 ≤ 17
      → more_children n.nchildren s + present s ≡ n.nchildren + 1
  more_lem vacant h p = omega arith
  more_lem (value w) h p = refl
  more_lem (subtree a k w c nodes) h p = absurd h

  -- level 0
  pub insert_leaf-Inserts :
      (p : Pool) → AllClean p.deleted_node → Inserts 0 path n key v (insert 0 p n key v)
  unfolding insert get_walk
  insert_leaf-Inserts p c =
      let full = count-le n.nodes in
      record {
        valid = record {
          counted = rw (pointer_lem v some_value) (
              omega (
                arith,
                leaf.counted,
                more_lem (n.nodes i) (leaf.values i (sl-lt key 0)) (omega (arith, leaf.counted)),
                count-store n.nodes i (value v) (sl-lt key 0),
              ));
          values = rw (pointer_lem v some_value) (
              store_case (λ x s. x < slnodes → IsValue s) n.nodes i (value v) (λ q. some_value)
                (λ x ne q. leaf.values x q));
          own = λ ne. (
            (leaf.own ne).0,
            rw (pointer_lem v some_value) (
                store_case (λ x s. x ≡ sl n.only_key 0 → present s ≡ 1) n.nodes i (value v)
                  (λ q. refl) (λ x other q. ap (λ y. present (n.nodes y)) q ∙ (leaf.own ne).1)
                  (sl n.only_key 0) refl),
          );
        };
        clean = c;
        sound = λ x. cc;
        made = λ x e. omega (
          arith,
          e,
          leaf.counted,
          more_lem (n.nodes i) (leaf.values i (sl-lt key 0)) (omega (arith, leaf.counted)),
          count-store n.nodes i vacant (sl-lt key 0),
        );
        change = λ k q. elim (eq-cases key k) [
          | inl same ↦
              rw (sym same)
                (rw (==_refl key, store_self n.nodes i (pointer v), pointer_lem v some_value) refl)
          | inr ne ↦
              let apart : sl k 0 ≢ i = λ x. ne (
                omega (
                  arith,
                  upper-zero key,
                  upper-zero k,
                  upper_of_path key 0 path on_path,
                  upper_of_path k 0 path q,
                )) in
              rw (==_ne key k ne, store_ne n.nodes i (sl k 0) (pointer v) apart)
        ];
      }
