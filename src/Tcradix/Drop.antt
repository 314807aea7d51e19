-- ===== src/Tcradix/Drop.antt =====
-- What `nremove` does to a node that has one key.
use ptok.Base.{
  ℕ, zero, suc, ◌<◌, ◌≡◌, ◌≢◌, refl, sym, ap, ◌∙◌, arith, Option, some, Bool, true, false, ◌&&◌,
  not, ◌==◌, ==_iff, ==_ne, eq-cases, inl, inr,
}
use mathlib.Core.Path.{subst}
use ptok.Base.Arrays.{store, store_self, store_ne}
use ptok.Tcradix.{Slot, vacant, value, subtree, child, Node, node_of, Pool, slnodes, sl}
use ptok.Tcradix.Remove.{Removal, minus_one, is_empty, clear_value, remove_in, nremove}
use ptok.Tcradix.Get.{follow, get_walk}
use ptok.Tcradix.Valid.{
  upper, sl-lt, upper_of_path, upper-zero, present, In, Sole, Only, AllClean, Clean,
}
use ptok.Tcradix.Walk.{get_walk-open}
use ptok.Tcradix.Fresh.{Sole-store}

-- a node without keys
pub record Blank (n : Node) : Type 0 where
  pub only_key : n.only_key ≡ 0
  pub nchildren : n.nchildren ≡ 0
  pub nodes : (i : ℕ) → i < slnodes → n.nodes i ≡ vacant

-- what goes to the pool
pub Blank-Clean : (n : Node) → Blank n → Clean (record n { only_val = 0 })
Blank-Clean n b = record {
  only_key = b.only_key;
  only_val = refl;
  nchildren = b.nchildren;
  nodes = λ i p ne. b.nodes i p;
}

pub get_walk-Blank : (lev k : ℕ) (n : Node) → Blank n → get_walk lev k n ≡ some 0
unfolding get_walk
get_walk-Blank zero k n b = rw (b.nodes (sl k 0) (sl-lt k 0))
get_walk-Blank (suc lev) k n b =
    get_walk-open lev k n b.only_key
    ∙ ap (follow (get_walk lev k)) (b.nodes (sl k (suc lev)) (sl-lt k (suc lev)))

pub is_empty-Blank : (n : Node) → Blank n → is_empty n ≡ true
is_empty-Blank n b = rw (b.only_key, b.nchildren)

-- whether the key removed is the one that the node keeps
abbrev pub is_own : Node → ℕ → Bool
is_own n key = n.only_key == key && not (key == 0)

pub is_own-other : (n : Node) (key : ℕ) → n.only_key ≢ key → is_own n key ≡ false
is_own-other n key ne = rw (==_ne n.only_key key ne)

pub is_own-zero : (n : Node) (key : ℕ) → n.only_key ≡ 0 → is_own n key ≡ false
is_own-zero n key e = elim (eq-cases key 0) [
  | inl z ↦ ground arith
  | inr ne ↦ rw (==_ne n.only_key key (λ x. ne (sym x ∙ e)))
]

pub is_own-same : (n : Node) (key : ℕ) → n.only_key ≡ key → key ≢ 0 → is_own n key ≡ true
is_own-same n key e ne = rw ((==_iff n.only_key key).1 e, ==_ne key 0 ne)

pub record Emptied (v : ℕ) (r : Removal) : Type 0 where
  pub emptied : r.emptied ≡ true
  pub found : r.found ≡ some v
  pub blank : Blank r.node
  pub clean : AllClean r.pool.deleted_node

pub record Missed (lev key v : ℕ) (n : Node) (before : Option ℕ) (r : Removal) : Type 0 where
  pub emptied : r.emptied ≡ false
  pub found : r.found ≡ before
  pub only : Only lev key v r.node
  pub count : r.node.nchildren ≡ n.nchildren
  pub clean : AllClean r.pool.deleted_node

-- the one slot of a node is cleared
cleared-Blank :
    (S : Slot → Type 0) (lev key : ℕ) (n : Node) (c : ℕ)
    → Sole S lev key n
    → c ≡ 0
    → Blank (record n { only_key = 0; nodes = store n.nodes (sl key lev) vacant; nchildren = c })
cleared-Blank S lev key n c s e = record {
  only_key = refl;
  nchildren = e;
  nodes = λ i p. elim (eq-cases i (sl key lev)) [
    | inl same ↦ rw same (store_self n.nodes (sl key lev) vacant)
    | inr ne ↦ store_ne n.nodes (sl key lev) i vacant ne ∙ s.rest i p ne
  ];
}

module _ (key v : ℕ) (some_key : key ≢ 0) where
  clear_value-Emptied :
      (p : Pool) (n : Node) (found : Option ℕ)
      → Sole (λ s. s ≡ value v) 0 key n
      → AllClean p.deleted_node
      → Emptied v (clear_value p (sl key 0) (record n { only_key = 0 }) found (value v))
  clear_value-Emptied p n found s c =
      let none_left : minus_one n.nchildren ≡ 0 = omega (arith, s.counted, ap present s.slot) in
      let b = cleared-Blank (λ s. s ≡ value v) 0 key n (minus_one n.nchildren) s none_left in
      record { emptied = is_empty-Blank _ b; found = refl; blank = b; clean = c }

  remove_in-Emptied :
      (lev : ℕ) (p : Pool) (n : Node)
      → ((q : Pool) (m : Node) (f : Option ℕ)
          → Only lev key v m
          → AllClean q.deleted_node
          → Emptied v (nremove lev key q m f))
      → Sole (In (Only lev key v)) (suc lev) key n
      → AllClean p.deleted_node
      → (s : Slot) → n.nodes (sl key (suc lev)) ≡ s
      → Emptied v
          (remove_in (nremove lev key) p (sl key (suc lev)) (record n { only_key = 0 }) (some v) s)
  remove_in-Emptied lev p n ih s c vacant e =
      let b : Blank (record n { only_key = 0 }) = record {
        only_key = refl;
        nchildren = s.counted ∙ ap present e;
        nodes = λ i q. elim (eq-cases i (sl key (suc lev))) [
          | inl same ↦ ap n.nodes same ∙ e
          | inr ne ↦ s.rest i q ne
        ];
      } in
      record { emptied = is_empty-Blank _ b; found = refl; blank = b; clean = c }
  remove_in-Emptied lev p n ih s c (value w) e = absurd (subst (In (Only lev key v)) e s.slot)
  remove_in-Emptied lev p n ih s c (subtree a k w d nodes) e =
      let h = ih p (node_of a k w d nodes) (some v) (subst (In (Only lev key v)) e s.slot) c in
      let none_left : minus_one n.nchildren ≡ 0 = omega (arith, s.counted, ap present e) in
      let b =
        cleared-Blank (In (Only lev key v)) (suc lev) key n (minus_one n.nchildren) s none_left in
      rw h.emptied (record {
        emptied = is_empty-Blank _ b;
        found = h.found;
        blank = b;
        clean = (Blank-Clean _ h.blank, h.clean);
      })

-- Removing the key of a node that has one key empties it, and finds the value.
pub nremove-Emptied :
    (lev key v : ℕ) (p : Pool) (n : Node) (found : Option ℕ)
    → key ≢ 0
    → Only lev key v n
    → AllClean p.deleted_node
    → Emptied v (nremove lev key p n found)
unfolding nremove
nremove-Emptied zero key v p n found some_key s c =
    rw (is_own-same n key s.own some_key, s.slot)
      (clear_value-Emptied key v some_key p n (some n.only_val) s c)
nremove-Emptied (suc lev) key v p n found some_key s c = rw (is_own-same n key s.0.own some_key) (
    subst
      (λ x. Emptied v (
        remove_in (nremove lev key) p (sl key (suc lev)) (record n { only_key = 0 }) (some x)
          (n.nodes (sl key (suc lev)))))
      (sym s.1)
      (remove_in-Emptied key v some_key lev p n
        (λ q m f o d. nremove-Emptied lev key v q m f some_key o d) s.0 c
        (n.nodes (sl key (suc lev))) refl))

-- a slot that is not NULL is the one of the key
same_slot :
    (lev key other : ℕ) (n : Node) (s : Slot) (S : Slot → Type 0)
    → Sole S lev key n
    → n.nodes (sl other lev) ≡ s
    → vacant ≢ s
    → sl other lev ≡ sl key lev
same_slot lev key other n s S o e ne = elim (eq-cases (sl other lev) (sl key lev)) [
  | inl x ↦ x
  | inr y ↦ absurd (ne (sym (o.rest (sl other lev) (sl-lt other lev) y) ∙ e))
]

remove_in-Missed :
    (lev key v other path : ℕ) (p : Pool) (n : Node) (found : Option ℕ)
    → key ≢ 0
    → upper key (suc (suc lev)) ≡ path
    → upper other (suc (suc lev)) ≡ path
    → Only (suc lev) key v n
    → AllClean p.deleted_node
    → ((q : Pool) (m : Node) (f : Option ℕ)
        → Only lev key v m
        → upper key (suc lev) ≡ upper other (suc lev)
        → AllClean q.deleted_node
        → Missed lev key v m f (nremove lev other q m f))
    → (s : Slot) → n.nodes (sl other (suc lev)) ≡ s
    → Missed
        (suc lev)
        key
        v
        n
        found
        (remove_in (nremove lev other) p (sl other (suc lev)) n found s)
remove_in-Missed lev key v other path p n found some_key on on' o c ih vacant e = record {
  emptied = ground (arith, o.0.own);
  found = refl;
  only = o;
  count = refl;
  clean = c;
}
remove_in-Missed lev key v other path p n found some_key on on' o c ih (value w) e =
    let same = same_slot (suc lev) key other n (value w) (In (Only lev key v)) o.0 e (λ x. cc) in
    absurd (subst (In (Only lev key v)) (sym (ap n.nodes same) ∙ e) o.0.slot)
remove_in-Missed lev key v other path p n found some_key on on' o c ih (subtree a k w d nodes) e =
    let m = node_of a k w d nodes in
    let same = same_slot (suc lev) key other n (child m) (In (Only lev key v)) o.0 e (λ x. cc) in
    let there : n.nodes (sl key (suc lev)) ≡ child m = sym (ap n.nodes same) ∙ e in
    let below : upper key (suc lev) ≡ upper other (suc lev) =
      omega (
        arith,
        same,
        upper_of_path key (suc lev) path on,
        upper_of_path other (suc lev) path on',
      ) in
    let h = ih p m found (subst (In (Only lev key v)) there o.0.slot) below c in
    rw h.emptied (record {
      emptied = refl;
      found = h.found;
      only = (
        subst
            (λ x.
              Sole (In (Only lev key v)) (suc lev) key
                (record n { nodes = store n.nodes x (child (nremove lev other p m found).node) }))
            (sym same)
            (Sole-store (Only lev key v) (Only lev key v) (suc lev) key n _ o.0 h.only n.nchildren
              (o.0.counted ∙ ap present there)),
        o.1,
      );
      count = refl;
      clean = h.clean;
    })

-- Removing another key from a node that has one key finds nothing and changes nothing there.
pub nremove-Missed :
    (lev key v other : ℕ) (p : Pool) (n : Node) (found : Option ℕ)
    → key ≢ 0
    → other ≢ key
    → upper key (suc lev) ≡ upper other (suc lev)
    → Only lev key v n
    → AllClean p.deleted_node
    → Missed lev key v n found (nremove lev other p n found)
unfolding nremove
nremove-Missed zero key v other p n found some_key ne on o c =
    let apart : sl other 0 ≢ sl key 0 = λ x. ne (
      omega (
        arith,
        upper-zero key,
        upper-zero other,
        upper_of_path key 0 (upper other 1) on,
        upper_of_path other 0 (upper other 1) refl,
      )) in
    rw (is_own-other n other (λ x. ne (sym x ∙ o.own)), o.rest (sl other 0) (sl-lt other 0) apart)
      (record { emptied = refl; found = refl; only = o; count = refl; clean = c })
nremove-Missed (suc lev) key v other p n found some_key ne on o c =
    rw (is_own-other n other (λ x. ne (sym x ∙ o.0.own))) (
      remove_in-Missed lev key v other (upper other (suc (suc lev))) p n found some_key on refl o c
        (λ q m f x y d. nremove-Missed lev key v other q m f some_key ne y x d)
        (n.nodes (sl other (suc lev))) refl)
