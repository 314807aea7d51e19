-- ===== src/Tcradix/Walk.antt =====
-- `get_walk` at the nodes of a well-formed tree, and at a node with one slot changed.
use ptok.Base.{
  ℕ, zero, suc, ◌+◌, ◌*◌, ◌<◌, ◌≤◌, ◌≡◌, ◌≢◌, inl, inr, refl, sym, ap, ◌∙◌, arith, Option, some,
  ◌==◌, ==_iff, ==_ne, ==_refl, eq-cases, if◌then◌else◌,
}
use ptok.Base.Arrays.{store, store_self, store_ne, store_case, sum, sum-store, sum_zero, sum_one}
use ptok.Tcradix.{Slot, vacant, value, subtree, Node, slnodes, sl}
use ptok.Tcradix.Get.{follow, get_walk}
use ptok.Tcradix.Insert.{Status, ok, enomem, fault}
use ptok.Tcradix.Valid.{
  upper, sl-lt, upper_of_path, upper-zero, present, count, In, Only, Branch, Valid,
}

-- What the lookup of `k` gives after an operation on `key`, by what the operation returned: the
-- new value, or what it gave before.
abbrev pub Change : Status → (key v k : ℕ) → (before after : Option ℕ) → Type 0
Change ok key v k before after = after ≡ (if key == k then some v else before)
Change enomem key v k before after = key ≢ k → after ≡ before
Change fault key v k before after = ⊥

-- no change at a key elsewhere
pub Change-other :
    (s : Status) (key v k : ℕ) (o : Option ℕ) → key ≢ k → s ≢ fault → Change s key v k o o
Change-other ok key v k o ne h = rw (==_ne key k ne)
Change-other enomem key v k o ne h = λ _. refl
Change-other fault key v k o ne h = absurd (h refl)

-- from a node that has the key alone to one that does
pub Change-alone :
    (s : Status) (key v w k : ℕ) (before after : Option ℕ)
    → s ≢ fault
    → before ≡ (if key == k then some w else some 0)
    → after ≡ (if key == k then some v else some 0)
    → Change s key v k before after
Change-alone ok key v w k before after sound b a = elim (eq-cases key k) [
  | inl same ↦ rw ((==_iff key k).1 same) (a ∙ rw ((==_iff key k).1 same))
  | inr ne ↦ rw (==_ne key k ne) (a ∙ rw (==_ne key k ne) (sym (b ∙ rw (==_ne key k ne))))
]
Change-alone enomem key v w k before after sound b a =
    λ ne. a ∙ rw (==_ne key k ne) (sym (b ∙ rw (==_ne key k ne)))
Change-alone fault key v w k before after sound b a = absurd (sound refl)

-- the key of which alone the slot is set
pub get_leaf-Only :
    (key v path : ℕ) (n : Node)
    → upper key 1 ≡ path
    → Only 0 key v n
    → (k : ℕ) → upper k 1 ≡ path
    → get_walk 0 k n ≡ (if key == k then some v else some 0)
unfolding get_walk
get_leaf-Only key v path n e h k q = elim (eq-cases key k) [
  | inl same ↦ rw (← same) (rw (==_refl key, h.slot))
  | inr ne ↦
      let apart : sl k 0 ≢ sl key 0 = λ x. ne (
        omega (
          arith,
          upper-zero key,
          upper-zero k,
          upper_of_path key 0 path e,
          upper_of_path k 0 path q,
        )) in
      rw (==_ne key k ne, h.rest (sl k 0) (sl-lt k 0) apart)
]

-- the key that a node keeps is the only one below it
pub get_walk-Only :
    (lev key v path : ℕ) (n : Node)
    → key ≢ 0
    → upper key (suc lev) ≡ path
    → Only lev key v n
    → (k : ℕ) → upper k (suc lev) ≡ path
    → get_walk lev k n ≡ (if key == k then some v else some 0)
unfolding get_walk
get_walk-Only zero key v path n some_key e h k q = get_leaf-Only key v path n e h k q
get_walk-Only (suc lev) key v path n some_key e h k q =
    rw (get_walk, ==_ne n.only_key 0 (λ x. some_key (sym h.0.own ∙ x))) (rw (h.1, h.0.own))

-- a node that keeps NULL
pub get_walk-none :
    (lev k : ℕ) (n : Node) → n.only_key ≢ 0 → n.only_val ≡ 0 → get_walk (suc lev) k n ≡ some 0
unfolding get_walk
get_walk-none lev k n ne e =
    rw (==_ne n.only_key 0 ne, e)
      (elim (eq-cases n.only_key k) [
        | inl same ↦ rw ((==_iff n.only_key k).1 same)
        | inr other ↦ rw (==_ne n.only_key k other)
      ])

-- at an open node the lookup goes on below
pub get_walk-open :
    (lev k : ℕ) (n : Node)
    → n.only_key ≡ 0
    → get_walk (suc lev) k n ≡ follow (get_walk lev k) (n.nodes (sl k (suc lev)))
unfolding get_walk
get_walk-open lev k n e = rw e

pub count-store :
    (nodes : ℕ → Slot) (i : ℕ) (s : Slot)
    → i < slnodes
    → count (store nodes i s) + present (nodes i) ≡ count nodes + present s
count-store nodes i s h = sum-store slnodes i nodes s present h

pub count_zero : (nodes : ℕ → Slot) → ((i : ℕ) → i < slnodes → nodes i ≡ vacant) → count nodes ≡ 0
count_zero nodes h = sum_zero slnodes (λ i. present (nodes i)) (λ i p. ap present (h i p))

pub count_one :
    (nodes : ℕ → Slot) (i : ℕ)
    → i < slnodes
    → ((j : ℕ) → j < slnodes → j ≢ i → nodes j ≡ vacant)
    → count nodes ≡ present (nodes i)
count_one nodes i h rest =
    sum_one slnodes i (λ j. present (nodes j)) h (λ j p ne. ap present (rest j p ne))

sum_le : (n : ℕ) (nodes : ℕ → Slot) → sum n (λ i. present (nodes i)) ≤ n
unfolding sum
sum_le zero nodes = omega arith
sum_le (suc n) nodes = omega (arith, present-le (nodes n), sum_le n nodes)
  where
    present-le : (s : Slot) → present s ≤ 1
    present-le vacant = omega arith
    present-le (value v) = omega arith
    present-le (subtree a k v c nodes) = omega arith

pub count-le : (nodes : ℕ → Slot) → count nodes ≤ slnodes
count-le nodes = sum_le slnodes nodes

-- an open node with another content of one slot
module _ (lev path : ℕ) (n : Node) (b : Branch (Valid lev) path n) (i : ℕ) (h : i < slnodes)
    (s : Slot) (valid : In (Valid lev (16 * path + i)) s) (c : ℕ)
    (counted : c + present (n.nodes i) ≡ n.nchildren + present s) where
  abbrev changed : Node
  changed = record n { nodes = store n.nodes i s; nchildren = c }

  pub changed-Branch : Branch (Valid lev) path changed
  changed-Branch = record {
    open_node = b.open_node;
    counted = omega (arith, counted, b.counted, count-store n.nodes i s h);
    children = λ j p.
        store_case (λ x t. x < slnodes → In (Valid lev (16 * path + x)) t) n.nodes i s (λ q. valid)
          (λ x ne q. b.children x q) j p;
  }

  -- the lookups after it, from those below the slot
  pub changed-Change :
      (st : Status) (key v : ℕ)
      → st ≢ fault
      → sl key (suc lev) ≡ i
      → ((k : ℕ)
          → upper k (suc lev) ≡ 16 * path + i
          → Change st key v k (follow (get_walk lev k) (n.nodes i)) (follow (get_walk lev k) s))
      → (k : ℕ) → upper k (suc (suc lev)) ≡ path
      → Change st key v k (get_walk (suc lev) k n) (get_walk (suc lev) k changed)
  changed-Change st key v sound e below k q =
      rw (get_walk-open lev k n b.open_node, get_walk-open lev k changed b.open_node)
        (elim (eq-cases (sl k (suc lev)) i) [
          | inl same ↦
              rw (same, store_self n.nodes i s)
                (below k (upper_of_path k (suc lev) path q ∙ ap (λ (t : ℕ). 16 * path + t) same))
          | inr ne ↦
              rw (store_ne n.nodes i (sl k (suc lev)) s ne)
                (Change-other st key v k _ (λ x. ne (rw (← x) e)) sound)
        ])
