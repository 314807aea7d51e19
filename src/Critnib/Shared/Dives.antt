-- ===== src/Critnib/Shared/Dives.antt =====
-- Dives in memory: what they find in a tree that memory shows, and that a store elsewhere does not
-- change that.
use ptok.Base.{ℕ, zero, suc, ◌<◌, ◌≤◌, ◌≡◌, refl, sym, ap, ◌∙◌, arith, eq-cases, inl, inr}
use mathlib.Core.Path.{subst}
use ptok.Base.Arrays.{sum, sum_none}
use ptok.Critnib.Tree.{Tree, null, leaf, node, slice_index, slnodes}
use ptok.Critnib.Valid.{slice_index-lt}
use ptok.Critnib.Find.{get_walk}
use ptok.Critnib.Owned.{in_tree}
use ptok.Critnib.Shared.{Pointer, nil, to_leaf, to_node, Cell, next, found, pointer, Shows, Reaches}
use ptok.Critnib.Shared.Reads.{Reach}

pub child-in_tree :
    (x a path shift : ℕ) (child : ℕ → Tree) (i : ℕ)
    → i < slnodes
    → 1 ≤ in_tree x (child i)
    → 1 ≤ in_tree x (node a path shift child)
child-in_tree x a path shift child i p h =
    elim (eq-cases (sum slnodes (λ j. in_tree x (child j))) 0) [
      | inl e ↦ omega (arith, h, sum_none slnodes (λ j. in_tree x (child j)) e i p)
      | inr ne ↦ omega (arith, ne)
    ]

pub own-in_tree : (a path shift : ℕ) (child : ℕ → Tree) → 1 ≤ in_tree a (node a path shift child)
own-in_tree a path shift child = ground arith

-- The dive in memory is the dive in the tree.
pub Shows-Reach :
    (h : ℕ → Cell) (L : ℕ → Type 0) (key : ℕ) (t : Tree)
    → Shows h t
    → ((x : ℕ) → 1 ≤ in_tree x t → L x)
    → Reach h L key (pointer t) (get_walk key t)
unfolding get_walk pointer
Shows-Reach h L key null shows all = (1, refl)
Shows-Reach h L key (leaf a k v) shows all = (1, (all a (ground arith), rw (shows.0, shows.1) refl))
Shows-Reach h L key (node a path shift child) shows all =
    let i = slice_index key shift in
    let p = slice_index-lt key shift in
    let (e, below) = shows.2 i p in
    let (f, r) =
      Shows-Reach h L key (child i) below
        (λ x q. all x (child-in_tree x a path shift child i p q)) in
    (
      suc f,
      (
        all a (own-in_tree a path shift child),
        subst (λ s. Reaches f h L key ((h a).child (slice_index key s)) (get_walk key (child i)))
            (sym shows.1) (subst (λ q. Reaches f h L key q (get_walk key (child i))) (sym e) r),
      ),
    )

-- A change of memory elsewhere.
pub Reaches-elsewhere :
    (f : ℕ) (h h' : ℕ → Cell) (L L' : ℕ → Type 0) (key : ℕ) (p : Pointer) (r : ℕ)
    → ((x : ℕ) → L x → L' x × (h' x ≡ h x))
    → Reaches f h L key p r
    → Reaches f h' L' key p r
Reaches-elsewhere zero h h' L L' key p r same d = absurd d
Reaches-elsewhere (suc f) h h' L L' key nil r same d = d
Reaches-elsewhere (suc f) h h' L L' key (to_leaf a) r same d =
    let (l, e) = same a d.0 in (l, d.1 ∙ ap (found key) (sym e))
Reaches-elsewhere (suc f) h h' L L' key (to_node a) r same d =
    let (l, e) = same a d.0 in
    (
      l,
      Reaches-elsewhere f h h' L L' key (next key (h' a)) r same
          (subst (λ c. Reaches f h L key (next key c) r) (sym e) d.1),
    )

-- Trees apart from the change are still shown.
pub Shows-elsewhere :
    (h h' : ℕ → Cell) (t : Tree) → ((x : ℕ) → 1 ≤ in_tree x t → h' x ≡ h x) → Shows h t → Shows h' t
Shows-elsewhere h h' null same shows = tt
Shows-elsewhere h h' (leaf a k v) same shows =
    let e = same a (ground arith) in (ap Cell.key e ∙ shows.0, ap Cell.value e ∙ shows.1)
Shows-elsewhere h h' (node a path shift child) same shows =
    let e = same a (own-in_tree a path shift child) in
    (
      ap Cell.path e ∙ shows.0,
      ap Cell.shift e ∙ shows.1,
      λ i p.
          let (c, below) = shows.2 i p in
          (
            ap (λ (k : Cell). k.child i) e ∙ c,
            Shows-elsewhere h h' (child i)
                (λ x q. same x (child-in_tree x a path shift child i p q)) below,
          ),
    )
