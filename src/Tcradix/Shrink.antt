-- ===== src/Tcradix/Shrink.antt =====
-- What `nremove` does to any well-formed node.
use ptok.Base.{
  ℕ, zero, suc, ◌+◌, ◌*◌, ◌≡◌, ◌≢◌, refl, sym, ap, ◌∙◌, arith, Option, some, Bool, true, false,
  ◌==◌, ==_iff, ==_ne, ==_refl, eq-cases, inl, inr, if◌then◌else◌,
}
use mathlib.Core.Path.{subst}
use ptok.Tcradix.{Slot, vacant, value, subtree, child, Node, node_of, Pool, sl}
use ptok.Tcradix.Remove.{Removal, minus_one, is_empty, after_child, remove_in, nremove}
use ptok.Tcradix.Insert.{ok}
use ptok.Tcradix.Get.{follow, get_walk}
use ptok.Tcradix.Valid.{
  upper, sl-lt, upper_of_path, present, In, Only, Branch, Alone, Valid, AllClean,
}
use ptok.Tcradix.Walk.{
  get_walk-Only, get_walk-open, count-store, count-le, changed-Branch, changed-Change,
}
use ptok.Tcradix.Grow.{Only-Valid}
use ptok.Tcradix.Drop.{Blank-Clean, get_walk-Blank, is_own-zero, nremove-Emptied, nremove-Missed}
use ptok.Tcradix.Removal.{Removes, Blank-Valid, Blank-is_empty, minus_one_lem, remove_leaf-Removes}

missed_key : (lev key v : ℕ) (n : Node) → Only lev key v n → n.only_key ≡ key
missed_key zero key v n o = o.own
missed_key (suc lev) key v n o = o.0.own

-- a node that has one key
module _ (lev path key : ℕ) (n : Node) (a : Alone (suc lev) path n)
    (on_path : upper key (suc (suc lev)) ≡ path) (p : Pool) (c : AllClean p.deleted_node)
    (before : Option ℕ) where
  same-Removes :
      n.only_key ≡ key → Removes (suc lev) path n key before (nremove (suc lev) key p n before)
  same-Removes same =
      let some_key : key ≢ 0 = λ x. a.some_key (same ∙ x) in
      let own : Only (suc lev) key n.only_val n =
        subst (λ x. Only (suc lev) x n.only_val n) same a.only in
      let h = nremove-Emptied (suc lev) key n.only_val p n before some_key own c in
      let lookup = get_walk-Only (suc lev) key n.only_val path n some_key on_path own in
      record {
        valid = Blank-Valid (suc lev) path _ h.blank;
        ready = λ ne. absurd (ne h.blank.only_key);
        own = λ ne. absurd (ne h.blank.only_key);
        blank = λ x. h.blank;
        clean = h.clean;
        found = (
          n.only_val,
          lookup key on_path ∙ rw (==_refl key),
          h.found ∙ rw (==_ne n.only_val 0 a.some_value),
        );
        change = λ k q. get_walk-Blank (suc lev) k _ h.blank ∙ elim (eq-cases key k) [
          | inl e ↦ rw ((==_iff key k).1 e)
          | inr ne ↦ rw (==_ne key k ne) (sym (lookup k q ∙ rw (==_ne key k ne)))
        ];
      }

  other-Removes :
      n.only_key ≢ key → Removes (suc lev) path n key before (nremove (suc lev) key p n before)
  other-Removes ne =
      let h =
        nremove-Missed (suc lev) n.only_key n.only_val key p n before a.some_key (λ x. ne (sym x))
          (a.on_path ∙ sym on_path) a.only c in
      let lookup =
        get_walk-Only (suc lev) n.only_key n.only_val path n a.some_key a.on_path a.only in
      let after =
        get_walk-Only (suc lev) n.only_key n.only_val path _ a.some_key a.on_path h.only in
      record {
        valid =
            Only-Valid (suc lev) path n.only_key n.only_val _ a.some_key a.some_value a.on_path
              h.only;
        ready = λ ne some_child x. some_child (sym h.count ∙ x);
        own = λ other. missed_key (suc lev) n.only_key n.only_val _ h.only;
        blank = λ x. absurd (cc (h.emptied));
        clean = h.clean;
        found = (0, lookup key on_path ∙ rw (==_ne n.only_key key ne), h.found);
        change = λ k q. elim (eq-cases key k) [
          | inl e ↦
              rw ((==_iff key k).1 e) (after k q ∙ rw (==_ne n.only_key k (λ x. ne (x ∙ sym e))))
          | inr other ↦ rw (==_ne key k other) (after k q ∙ sym (lookup k q))
        ];
      }

-- an open node
module _ (lev path key : ℕ) (n : Node) (b : Branch (Valid lev) path n)
    (on_path : upper key (suc (suc lev)) ≡ path) (p : Pool) (c : AllClean p.deleted_node)
    (before : Option ℕ) where
  abbrev i : ℕ
  i = sl key (suc lev)

  here : (s : Slot) → n.nodes i ≡ s → get_walk (suc lev) key n ≡ follow (get_walk lev key) s
  here s e = get_walk-open lev key n b.open_node ∙ ap (follow (get_walk lev key)) e

  elsewhere :
      (k : ℕ) (s : Slot)
      → n.nodes i ≡ s
      → (if key == k then some 0 else follow (get_walk lev k) s)
        ≡ (if key == k then some 0 else follow (get_walk lev k) (n.nodes i))
  elsewhere k s e = ap (λ x. if key == k then some 0 else follow (get_walk lev k) x) (sym e)

  vacant-Removes :
      n.nodes i ≡ vacant
      → Removes
          (suc lev)
          path
          n
          key
          before
          (record { emptied = is_empty n; found = before; node = n; pool = p })
  vacant-Removes e = record {
    valid = inl b;
    ready = λ ne. absurd (ne b.open_node);
    own = λ ne. absurd (ne b.open_node);
    blank = Blank-is_empty n b.counted;
    clean = c;
    found = (0, here vacant e, refl);
    change = λ k q. elim (eq-cases key k) [
      | inl same ↦
          rw ((==_iff key k).1 same) (ap (λ x. get_walk (suc lev) x n) (sym same) ∙ here vacant e)
      | inr ne ↦ rw (==_ne key k ne)
    ];
  }

  after_child-Removes :
      (m : Node) (r : Removal)
      → n.nodes i ≡ child m
      → Removes lev (16 * path + i) m key before r
      → (emptied : Bool) → r.emptied ≡ emptied
      → Removes (suc lev) path n key before (after_child i n r.found r.node r.pool emptied)
  after_child-Removes m r e h false x =
      let there = ap present e in
      let counted : n.nchildren + present (n.nodes i) ≡ n.nchildren + 1 = omega (arith, there) in
      record {
        valid = inl (
            changed-Branch lev path n b i (sl-lt key (suc lev)) (child r.node) h.valid n.nchildren
              counted);
        ready = λ ne. absurd (ne b.open_node);
        own = λ ne. absurd (ne b.open_node);
        blank = λ y. absurd (cc);
        clean = h.clean;
        found = (h.found.0, here (child m) e ∙ h.found.1, h.found.2);
        change =
            changed-Change lev path n b i (sl-lt key (suc lev)) (child r.node) h.valid n.nchildren
              counted ok key 0 (λ y. cc) refl (λ k q. h.change k q ∙ elsewhere k (child m) e);
      }
  after_child-Removes m r e h true x =
      let there = ap present e in
      let empty = h.blank x in
      let fewer = count-store n.nodes i vacant (sl-lt key (suc lev)) in
      let full = count-le n.nodes in
      let less = minus_one_lem n.nchildren (omega (arith, b.counted)) (omega (arith, b.counted)) in
      let counted : minus_one n.nchildren + present (n.nodes i) ≡ n.nchildren + 0 =
        omega (arith, there) in
      let valid = changed-Branch lev path n b i (sl-lt key (suc lev)) vacant tt _ counted in
      record {
        valid = inl valid;
        ready = λ ne. absurd (ne b.open_node);
        own = λ ne. absurd (ne b.open_node);
        blank = λ y. Blank-is_empty _ valid.counted y;
        clean = (Blank-Clean r.node empty, h.clean);
        found = (h.found.0, here (child m) e ∙ h.found.1, h.found.2);
        change =
            changed-Change lev path n b i (sl-lt key (suc lev)) vacant tt _ counted ok key 0
              (λ y. cc) refl
              (λ k q.
                sym (get_walk-Blank lev k r.node empty) ∙ h.change k q ∙ elsewhere k (child m) e);
      }

  remove_in-Removes :
      ((q : Pool) (m : Node) (f : Option ℕ)
        → AllClean q.deleted_node
        → Valid lev (16 * path + i) m
        → Removes lev (16 * path + i) m key f (nremove lev key q m f))
      → (s : Slot) → n.nodes i ≡ s
      → Removes (suc lev) path n key before (remove_in (nremove lev key) p i n before s)
  remove_in-Removes ih vacant e = vacant-Removes e
  remove_in-Removes ih (value w) e =
      absurd (subst (In (Valid lev (16 * path + i))) e (b.children i (sl-lt key (suc lev))))
  remove_in-Removes ih (subtree a k w d nodes) e =
      let m = node_of a k w d nodes in
      after_child-Removes m (nremove lev key p m before) e
        (ih p m before c
          (subst (In (Valid lev (16 * path + i))) e (b.children i (sl-lt key (suc lev)))))
        (nremove lev key p m before).emptied refl

-- At a well-formed node with clean nodes waiting for reuse, `nremove` of a key on the node's path
-- finds the value that a lookup of the key gives, if it is not NULL; afterwards a lookup of the key
-- gives NULL and those of the others what they gave before; the node is well formed and what waits
-- for reuse is clean; a node that it reports empty has no keys.
pub nremove-Removes :
    (lev path key : ℕ) (p : Pool) (n : Node) (before : Option ℕ)
    → AllClean p.deleted_node
    → Valid lev path n
    → upper key (suc lev) ≡ path
    → Removes lev path n key before (nremove lev key p n before)
unfolding nremove
nremove-Removes zero path key p n before c leaf on =
    remove_leaf-Removes path n leaf key on p c before
nremove-Removes (suc lev) path key p n before c (inl b) on = rw (is_own-zero n key b.open_node) (
    remove_in-Removes lev path key n b on p c before
      (λ q m f d x.
        nremove-Removes lev (16 * path + sl key (suc lev)) key q m f d x
          (upper_of_path key (suc lev) path on))
      (n.nodes (sl key (suc lev))) refl)
nremove-Removes (suc lev) path key p n before c (inr a) on = elim (eq-cases n.only_key key) [
  | inl same ↦ same-Removes lev path key n a on p c before same
  | inr ne ↦ other-Removes lev path key n a on p c before ne
]
