-- ===== src/Tcradix/Link.antt =====
-- What `insert_child` does to a well-formed open node, given what `insert` does one level down.
use ptok.Base.{
  ℕ, suc, ◌+◌, ◌*◌, ◌≡◌, ◌≢◌, refl, sym, ap, ◌∙◌, arith, some, ◌==◌, inl, if◌then◌else◌,
}
use mathlib.Core.Path.{subst}
use ptok.Base.Arrays.{store}
use ptok.Tcradix.{Slot, vacant, child, Node, Pool, sl}
use ptok.Tcradix.Insert.{Status, ok, enomem, fault, Result, linked, after_zero}
use ptok.Tcradix.Get.{follow, get_walk}
use ptok.Tcradix.Valid.{upper, sl-lt, upper_of_path, present, In, Branch, Valid, AllClean, Zeroed}
use ptok.Tcradix.Walk.{
  Change, get_walk-open, count-store, count_zero, count-le, changed-Branch, changed-Change,
}
use ptok.Tcradix.Fresh.{new_node}
use ptok.Tcradix.Grow.{Inserts}

-- the same slot and status, for lookups below the slot
follow-Change :
    (st : Status) (lev key v path i : ℕ) (n m : Node) (s : Slot)
    → n.nodes i ≡ s
    → ((k : ℕ)
        → upper k (suc lev) ≡ 16 * path + i
        → Change st key v k (follow (get_walk lev k) s) (get_walk lev k m))
    → (k : ℕ) → upper k (suc lev) ≡ 16 * path + i
    → Change st key v k (follow (get_walk lev k) (n.nodes i)) (get_walk lev k m)
follow-Change st lev key v path i n m s e h k q =
    subst (λ x. Change st key v k (follow (get_walk lev k) x) (get_walk lev k m)) (sym e) (h k q)

-- Nothing changes.
pub unchanged :
    (lev path key v : ℕ) (n : Node) (q : Pool)
    → Valid lev path n
    → AllClean q.deleted_node
    → Inserts lev path n key v (record { status = enomem; node = n; pool = q })
unchanged lev path key v n q valid c = record {
  valid = valid;
  clean = c;
  sound = λ x. cc;
  made = λ x. cc;
  change = λ k p ne. refl;
}

-- an open node without children
pub Zeroed-Branch :
    (lev path v : ℕ) (m : Node)
    → Zeroed m
    → Branch (Valid lev) path (new_node m 0 v)
      × ((k : ℕ) → get_walk (suc lev) k (new_node m 0 v) ≡ some 0)
Zeroed-Branch lev path v m z = (
  record {
    open_node = refl;
    counted = sym (count_zero m.nodes z.nodes);
    children = λ i p. subst (In (Valid lev (16 * path + i))) (sym (z.nodes i p)) tt;
  },
  λ k.
      get_walk-open lev k (new_node m 0 v) refl
      ∙ ap (follow (get_walk lev k)) (z.nodes (sl k (suc lev)) (sl-lt k (suc lev))),
)

module _ (lev path key v : ℕ) (n : Node) (b : Branch (Valid lev) path n) (some_value : v ≢ 0)
    (on_path : upper key (suc (suc lev)) ≡ path) where
  abbrev i : ℕ
  i = sl key (suc lev)

  -- a child that has been changed
  pub in_child-Inserts :
      (m : Node) (r : Result)
      → n.nodes i ≡ child m
      → Inserts lev (16 * path + i) m key v r
      → Inserts (suc lev) path n key v (record {
        status = r.status;
        node = record n { nodes = store n.nodes i (child r.node) };
        pool = r.pool;
      })
  in_child-Inserts m r e h =
      let same = ap present e in
      let fewer = count-store n.nodes i vacant (sl-lt key (suc lev)) in
      record {
        valid = inl (
            changed-Branch lev path n b i (sl-lt key (suc lev)) (child r.node) h.valid n.nchildren
              (omega (arith, same)));
        clean = h.clean;
        sound = h.sound;
        made = λ x y. omega (arith, y, same, b.counted, fewer);
        change =
            changed-Change lev path n b i (sl-lt key (suc lev)) (child r.node) h.valid n.nchildren
              (omega (arith, same)) r.status key v h.sound refl
              (follow-Change r.status lev key v path i n r.node (child m) e h.change);
      }

  -- a new child
  pub linked-Inserts :
      (m : Node) (q : Pool)
      → n.nodes i ≡ vacant
      → AllClean q.deleted_node
      → Valid lev (16 * path + i) m
      → ((k : ℕ)
          → upper k (suc lev) ≡ 16 * path + i
          → get_walk lev k m ≡ (if key == k then some v else some 0))
      → Inserts (suc lev) path n key v (linked n i m q)
  linked-Inserts m q e c valid found =
      let full = count-le n.nodes in
      let none_there = ap present e in
      record {
        valid = inl (
            changed-Branch lev path n b i (sl-lt key (suc lev)) (child m) valid _
              (omega (arith, none_there, b.counted)));
        clean = c;
        sound = λ x. cc;
        made = λ x y. omega (arith, y, b.counted);
        change =
            changed-Change lev path n b i (sl-lt key (suc lev)) (child m) valid _
              (omega (arith, none_there, b.counted)) ok key v (λ x. cc) refl
              (follow-Change ok lev key v path i n m vacant e found);
      }

  -- the path of the new child
  abbrev below_path : ℕ
  below_path = 16 * path + i

  child_path : upper key (suc lev) ≡ below_path
  child_path = upper_of_path key (suc lev) path on_path

  -- the insertion of key 0 into the new child, and what follows it
  pub after_zero-Inserts :
      (m : Node) (q : Pool) (st : Status)
      → n.nodes i ≡ vacant
      → st ≢ fault
      → AllClean q.deleted_node
      → Valid lev below_path m
      → ((k : ℕ) → upper k (suc lev) ≡ below_path → Change st key v k (some 0) (get_walk lev k m))
      → Inserts (suc lev) path n key v (after_zero lev n i m q st)
  after_zero-Inserts m q ok e sound c valid found = linked-Inserts m q e c valid found
  after_zero-Inserts m q enomem e sound c valid found = unchanged (suc lev) path key v n _ (inl b) c
  after_zero-Inserts m q fault e sound c valid found = absurd (sound refl)
