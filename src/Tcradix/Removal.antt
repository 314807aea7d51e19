-- ===== src/Tcradix/Removal.antt =====
-- What `nremove` does to a well-formed node at level 0.
use ptok.Base.{
  ℕ, zero, suc, ◌+◌, ◌*◌, ◌<◌, ◌≤◌, ◌≡◌, ◌≢◌, ◌⊎◌, refl, sym, ap, ◌∙◌, arith, Option, some, true,
  false, ◌==◌, ==_ne, ==_refl, eq-cases, inl, inr, if◌then◌else◌,
}
use mathlib.Core.Path.{subst}
use ptok.Base.Arrays.{store, store_self, store_ne, store_case, sum_none}
use ptok.Tcradix.{Slot, vacant, value, subtree, Node, Pool, slnodes, sl}
use ptok.Tcradix.Remove.{Removal, minus_one, is_empty, clear_value, nremove}
use ptok.Tcradix.Get.{get_walk}
use ptok.Tcradix.Valid.{
  upper, sl-lt, upper_of_path, upper-zero, present, count, In, IsValue, Leaf, Valid, AllClean,
}
use ptok.Tcradix.Walk.{count-store, count_zero, count-le}
use ptok.Tcradix.Drop.{Blank, is_own-other, is_own-zero, is_own-same}

-- `*value`, from what a lookup gave before
abbrev pub found_after : (before : Option ℕ) → (w : ℕ) → Option ℕ
found_after before w = if w == 0 then before else some w

-- The node is well formed, without keys if it is reported empty; what waits for reuse is clean;
-- `*value` is the value of the key, if it has one; and the key has none afterwards.
pub record Removes (lev path : ℕ) (n : Node) (key : ℕ) (before : Option ℕ) (r : Removal)
    : Type 0 where
  pub valid : Valid lev path r.node
  pub ready : r.node.only_key ≢ 0 → n.nchildren ≢ 0 → r.node.nchildren ≢ 0
  pub own : r.node.only_key ≢ 0 → r.node.only_key ≡ n.only_key
  pub blank : r.emptied ≡ true → Blank r.node
  pub clean : AllClean r.pool.deleted_node
  pub found : (w : ℕ) × (get_walk lev key n ≡ some w) × (r.found ≡ found_after before w)
  pub change :
      (k : ℕ)
      → upper k (suc lev) ≡ path
      → get_walk lev k r.node ≡ (if key == k then some 0 else get_walk lev k n)

pub Blank-Valid : (lev path : ℕ) (n : Node) → Blank n → Valid lev path n
Blank-Valid zero path n b = record {
  counted = b.nchildren ∙ sym (count_zero n.nodes b.nodes);
  values = λ i p. subst IsValue (sym (b.nodes i p)) tt;
  own = λ ne. absurd (ne b.only_key);
}
Blank-Valid (suc lev) path n b = inl (record {
  open_node = b.only_key;
  counted = b.nchildren ∙ sym (count_zero n.nodes b.nodes);
  children = λ i p. subst (In (Valid lev (16 * path + i))) (sym (b.nodes i p)) tt;
})

-- a node whose count is 0 has no children
vacant_of_count : (s : Slot) → present s ≡ 0 → s ≡ vacant
vacant_of_count vacant e = refl
vacant_of_count (value v) e = absurd (omega arith)
vacant_of_count (subtree a k v c nodes) e = absurd (omega arith)

pub Blank-is_empty : (n : Node) → n.nchildren ≡ count n.nodes → is_empty n ≡ true → Blank n
Blank-is_empty n counted e =
    let none_there : n.nchildren ≡ 0 = ground arith in
    record {
      only_key = ground arith;
      nchildren = none_there;
      nodes = λ i p.
          vacant_of_count (n.nodes i)
            (sum_none slnodes (λ j. present (n.nodes j)) (sym counted ∙ none_there) i p);
    }

pub minus_one_lem : (n : ℕ) → 0 < n → n ≤ 16 → minus_one n + 1 ≡ n
minus_one_lem n p q = omega arith

-- a leaf that keeps a key has a value
Leaf-count : (path : ℕ) (n : Node) → Leaf path n → n.only_key ≢ 0 → n.nchildren ≢ 0
Leaf-count path n leaf ne e =
    let none_there =
      sum_none slnodes (λ j. present (n.nodes j)) (sym leaf.counted ∙ e) (sl n.only_key 0)
        (sl-lt n.only_key 0) in
    omega (arith, none_there, (leaf.own ne).1)

-- level 0
module _ (path : ℕ) (n : Node) (leaf : Leaf path n) (key : ℕ) (on_path : upper key 1 ≡ path)
    (p : Pool) (c : AllClean p.deleted_node) (before : Option ℕ) where
  abbrev i : ℕ
  i = sl key 0

  apart : (k : ℕ) → upper k 1 ≡ path → k ≢ key → sl k 0 ≢ i
  apart k q ne x = ne (
      omega (
        arith,
        upper-zero key,
        upper-zero k,
        upper_of_path key 0 path on_path,
        upper_of_path k 0 path q,
      ))

  -- the value is cleared, in a node that no longer keeps the key
  clear_value-Removes :
      (n1 : Node) (found : Option ℕ) (v : ℕ)
      → n1.nodes ≡ n.nodes
      → n1.nchildren ≡ n.nchildren
      → (n1.only_key ≢ 0 → (n1.only_key ≡ n.only_key) × (n1.only_key ≢ key))
      → n.nodes i ≡ value v
      → Removes 0 path n key before (clear_value p i n1 found (value v))
  unfolding get_walk
  clear_value-Removes n1 found v same_nodes same_count own e =
      let there = ap present e in
      let some_value : v ≢ 0 = subst IsValue e (leaf.values i (sl-lt key 0)) in
      let counted = count-store n.nodes i vacant (sl-lt key 0) in
      let full = count-le n.nodes in
      let less =
        minus_one_lem n.nchildren (omega (arith, leaf.counted)) (omega (arith, leaf.counted)) in
      let valid : Leaf path
          (record n1 { nodes = store n1.nodes i vacant; nchildren = minus_one n1.nchildren }) =
        record {
          counted = rw (same_nodes, same_count) (omega (arith, leaf.counted));
          values = rw same_nodes (
              store_case (λ x s. x < slnodes → IsValue s) n.nodes i vacant (λ q. tt)
                (λ x ne q. leaf.values x q));
          own = λ ne.
              let (old, other) = own ne in
              let (q, r) = leaf.own (λ x. ne (old ∙ x)) in
              (
                ap (λ x. upper x 1) old ∙ q,
                rw (same_nodes, old)
                    (ap present (
                        store_ne n.nodes i (sl n.only_key 0) vacant
                          (apart n.only_key q (λ x. other (old ∙ x))))
                      ∙ r),
              );
        } in
      record {
        valid = valid;
        ready = λ ne some_child. Leaf-count path _ valid ne;
        own = λ ne. (own ne).0;
        blank = λ x. Blank-is_empty _ valid.counted x;
        clean = c;
        found = (v, rw e, rw (==_ne v 0 some_value));
        change = λ k q. elim (eq-cases key k) [
          | inl same ↦ rw (sym same) (rw (==_refl key, same_nodes, store_self n.nodes i vacant))
          | inr ne ↦ rw (
            ==_ne key k ne,
            same_nodes,
            store_ne n.nodes i (sl k 0) vacant (apart k q (λ x. ne (sym x))),
          )
        ];
      }

  -- the slot is NULL already
  unchanged-Removes :
      n.nodes i ≡ vacant
      → Removes 0 path n key before (record { emptied = false; found = before; node = n; pool = p })
  unfolding get_walk
  unchanged-Removes e = record {
    valid = leaf;
    ready = λ ne some_child. some_child;
    own = λ ne. refl;
    blank = λ x. absurd (cc);
    clean = c;
    found = (0, rw e, refl);
    change = λ k q. elim (eq-cases key k) [
      | inl same ↦ rw (sym same) (rw (==_refl key, e))
      | inr ne ↦ rw (==_ne key k ne)
    ];
  }

  other-Removes :
      n.only_key ≢ key ⊎ (key ≡ 0)
      → (s : Slot) → n.nodes i ≡ s
      → Removes 0 path n key before (clear_value p i n before s)
  other-Removes h vacant e = unchanged-Removes e
  other-Removes (inl ne) (value v) e = clear_value-Removes n before v refl refl (λ x. (refl, ne)) e
  other-Removes (inr z) (value v) e =
      clear_value-Removes n before v refl refl (λ x. (refl, λ same. x (same ∙ z))) e
  other-Removes h (subtree a k w d nodes) e = absurd (subst IsValue e (leaf.values i (sl-lt key 0)))

  own-Removes :
      n.only_key ≡ key
      → key ≢ 0
      → (found : Option ℕ) (s : Slot) → n.nodes i ≡ s
      → Removes 0 path n key before (clear_value p i (record n { only_key = 0 }) found s)
  own-Removes same ne found vacant e =
      let there = (leaf.own (λ x. ne (sym same ∙ x))).1 in
      absurd (omega (arith, ap (λ x. present (n.nodes (sl x 0))) same, ap present e, there))
  own-Removes same ne found (value v) e =
      clear_value-Removes (record n { only_key = 0 }) found v refl refl (λ x. absurd (x refl)) e
  own-Removes same ne found (subtree a k w d nodes) e =
      absurd (subst IsValue e (leaf.values i (sl-lt key 0)))

  pub remove_leaf-Removes : Removes 0 path n key before (nremove 0 key p n before)
  unfolding nremove
  remove_leaf-Removes = elim (eq-cases n.only_key key) [
    | inr ne ↦ rw (is_own-other n key ne) (other-Removes (inl ne) (n.nodes i) refl)
    | inl same ↦ elim (eq-cases key 0) [
      | inl z ↦ rw (is_own-zero n key (same ∙ z)) (other-Removes (inr z) (n.nodes i) refl)
      | inr ne ↦
          rw (is_own-same n key same ne) (own-Removes same ne (some n.only_val) (n.nodes i) refl)
    ]
  ]
