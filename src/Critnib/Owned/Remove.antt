-- ===== src/Critnib/Owned/Remove.antt =====
-- What `critnib_remove` does to the memory that the structure owns: from the pending slot to the
-- pools, and from the tree to the pending slot.
use ptok.Base.{
  ℕ, ◌+◌, ◌%◌, ◌<◌, ◌≡◌, refl, sym, ap, ◌∙◌, arith, true, ◌==◌, Bool-cases, inl, inr, Option, none,
  some,
}
use mathlib.Core.Path.{subst}
use ptok.Word.{word}
use ptok.Base.Arrays.{store, store_self, sum-store, sum_one}
use ptok.Critnib.Tree.{Tree, null, leaf, node, Critnib, is_null, slice_index, slnodes, deleted_life}
use ptok.Critnib.Pools.{free_node, free_leaf}
use ptok.Critnib.Valid.{slice_index-lt}
use ptok.Critnib.Remove.{
  Children, nothing, scan_children, Unlinked, missing, here, unlinked, fault, collapse, after_child,
  remove_walk, rotate, finish_remove, critnib_remove,
}
use ptok.Critnib.Remove.Scan.{Scanned, none_there, one_there, many_there, scan_children-Scanned}
use ptok.Critnib.Refines.Remove.{rotate-root}
use ptok.Critnib.Owned.{hit, in_option, in_tree, owned}

in_tree-null : (x : ℕ) (t : Tree) → is_null t ≡ true → in_tree x t ≡ 0
in_tree-null x null e = refl
in_tree-null x (leaf a k v) e = absurd (cc)
in_tree-null x (node a path shift child) e = absurd (cc)

module _ (x : ℕ) where
  -- the memory that the walk takes out of the tree
  abbrev pub Loses : Tree → Unlinked → Type 0
  Loses t missing = Unit
  Loses t (here k v) = in_tree x t ≡ hit x k
  Loses t (unlinked v k n t') = in_tree x t ≡ in_tree x t' + hit x k + in_option x n
  Loses t fault = Unit

  collapse-Loses :
      (b path shift : ℕ) (rest : ℕ → Tree) (t : Tree) (k v : ℕ)
      → in_tree x t ≡ in_tree x (node b path shift rest) + hit x k
      → (c : Children) → Scanned slnodes rest c
      → Loses t (collapse b path shift rest k v c)
  unfolding collapse
  collapse-Loses b path shift rest t k v e nothing (none_there h) = tt
  collapse-Loses b path shift rest t k v e c (one_there o p there alone) = omega (
    arith,
    sum_one slnodes o (λ i. in_tree x (rest i)) p
        (λ j q ne. in_tree-null x (rest j) (alone j q ne)),
  )
  collapse-Loses b path shift rest t k v e c (many_there i j lt p ei ej) = omega arith

  after_child-Loses :
      (b path shift : ℕ) (child : ℕ → Tree) (i : ℕ)
      → i < slnodes
      → (r : Unlinked) → Loses (child i) r
      → Loses (node b path shift child) (after_child b path shift child i r)
  unfolding after_child
  after_child-Loses b path shift child i p missing l = tt
  after_child-Loses b path shift child i p (here k v) l =
      let rest = store child i null in
      collapse-Loses b path shift rest (node b path shift child) k v
        (omega (arith, sum-store slnodes i child null (in_tree x) p))
        (scan_children slnodes 0 rest none) (scan_children-Scanned slnodes rest)
  after_child-Loses b path shift child i p (unlinked v k n t') l =
      omega (arith, sum-store slnodes i child t' (in_tree x) p)
  after_child-Loses b path shift child i p fault l = tt

  pub remove_walk-Loses : (key : ℕ) (t : Tree) → Loses t (remove_walk key t)
  unfolding remove_walk
  remove_walk-Loses key null = tt
  remove_walk-Loses key (leaf a k v) = elim (Bool-cases (k == key)) [
    | inl e ↦ rw e refl
    | inr e ↦ rw e tt
  ]
  remove_walk-Loses key (node b path shift child) =
      let i = slice_index key shift in
      after_child-Loses b path shift child i (slice_index-lt key shift) (remove_walk key (child i))
        (remove_walk-Loses key (child i))

  owned-free_node :
      (c : Critnib) (o : Option ℕ) → owned x (free_node c o) ≡ owned x c + in_option x o
  unfolding free_node
  owned-free_node c none = omega arith
  owned-free_node c (some n) = omega arith

  owned-free_leaf :
      (c : Critnib) (o : Option ℕ) → owned x (free_leaf c o) ≡ owned x c + in_option x o
  unfolding free_leaf
  owned-free_leaf c none = omega arith
  owned-free_leaf c (some k) = omega arith

  pub free-pending :
      (c : Critnib) (n k : Option ℕ)
      → let d = free_leaf (free_node c n) k in
        (d.pending_del_nodes ≡ c.pending_del_nodes) × (d.pending_del_leaves ≡ c.pending_del_leaves)
  unfolding free_node free_leaf
  free-pending c none none = (refl, refl)
  free-pending c none (some k) = (refl, refl)
  free-pending c (some n) none = (refl, refl)
  free-pending c (some n) (some k) = (refl, refl)

  -- both slots at `del` made empty
  owned-emptied :
      (c : Critnib) (del : ℕ)
      → del < deleted_life
      → owned x (record c {
        pending_del_nodes = store c.pending_del_nodes del none;
        pending_del_leaves = store c.pending_del_leaves del none;
      })
          + in_option x (c.pending_del_nodes del)
          + in_option x (c.pending_del_leaves del)
        ≡ owned x c
  owned-emptied c del p = omega (
    arith,
    sum-store deleted_life del c.pending_del_nodes none (in_option x) p,
    sum-store deleted_life del c.pending_del_leaves none (in_option x) p,
  )

  owned-rotate : (c : Critnib) → owned x (rotate c) ≡ owned x c
  unfolding rotate
  owned-rotate c =
      let del = c.remove_count % deleted_life in
      let n = c.pending_del_nodes del in
      let k = c.pending_del_leaves del in
      let c1 = record c { remove_count = (c.remove_count + 1) % word } in
      let c2 = free_leaf (free_node c1 n) k in
      let keep = free-pending c1 n k in
      omega (
        arith,
        owned-emptied c2 del (omega arith),
        owned-free_leaf (free_node c1 n) k,
        owned-free_node c1 n,
        ap (λ (f : ℕ → Option ℕ). in_option x (f del)) keep.0,
        ap (λ (f : ℕ → Option ℕ). in_option x (f del)) keep.1,
      )

  -- the slots at `del` of the structure that the end of a remove starts from are empty
  finish_remove-owned :
      (del : ℕ) (c : Critnib)
      → del < deleted_life
      → c.pending_del_nodes del ≡ none
      → c.pending_del_leaves del ≡ none
      → (r : Unlinked) → Loses c.root r
      → owned x (finish_remove del c r).critnib ≡ owned x c
  unfolding finish_remove
  finish_remove-owned del c p en el missing l = refl
  finish_remove-owned del c p en el (here k v) l = omega (
    arith,
    sum-store deleted_life del c.pending_del_leaves (some k) (in_option x) p,
    ap (in_option x) el,
  )
  finish_remove-owned del c p en el (unlinked v k none t') l = omega (
    arith,
    sum-store deleted_life del c.pending_del_leaves (some k) (in_option x) p,
    ap (in_option x) el,
  )
  finish_remove-owned del c p en el (unlinked v k (some n) t') l = omega (
    arith,
    sum-store deleted_life del c.pending_del_leaves (some k) (in_option x) p,
    sum-store deleted_life del c.pending_del_nodes (some n) (in_option x) p,
    ap (in_option x) el,
    ap (in_option x) en,
  )
  finish_remove-owned del c p en el fault l = refl

pub rotate_empty :
    (c : Critnib)
    → ((rotate c).pending_del_nodes (c.remove_count % deleted_life) ≡ none)
      × ((rotate c).pending_del_leaves (c.remove_count % deleted_life) ≡ none)
unfolding rotate
rotate_empty c =
    let del = c.remove_count % deleted_life in
    let c1 = record c { remove_count = (c.remove_count + 1) % word } in
    let c2 = free_leaf (free_node c1 (c.pending_del_nodes del)) (c.pending_del_leaves del) in
    (store_self c2.pending_del_nodes del none, store_self c2.pending_del_leaves del none)

-- No address is lost or made up by `critnib_remove`, and `Malloc` is not called.
pub critnib_remove-owned :
    (x : ℕ) (c : Critnib) (key : ℕ) → owned x (critnib_remove c key).critnib ≡ owned x c
unfolding critnib_remove
critnib_remove-owned x c key = elim (Bool-cases (is_null c.root)) [
  | inl e ↦ rw e refl
  | inr e ↦
      let empty = rotate_empty c in
      rw e (
        finish_remove-owned x (c.remove_count % deleted_life) (rotate c) (omega arith) empty.0
          empty.1 (remove_walk key c.root)
          (subst (λ t. Loses x t (remove_walk key c.root)) (sym (rotate-root c))
            (remove_walk-Loses x key c.root))
        ∙ owned-rotate x c)
]
