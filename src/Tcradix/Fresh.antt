-- ===== src/Tcradix/Fresh.antt =====
-- The nodes that `alloc_node` gives, and a node that has one key.
use ptok.Base.{
  ℕ, suc, ◌≡◌, ◌≢◌, refl, sym, ◌∙◌, Option, none, some, List, [], ◌∷◌, inl, inr, ==_ne, eq-cases,
}
use mathlib.Core.Path.{subst}
use ptok.Base.Arrays.{store, store_self, store_ne}
use ptok.Tcradix.{
  vacant, value, child, Node, pointer, Pool, sl, Allocated, zalloc, reclaim, alloc_node,
}
use ptok.Tcradix.Valid.{In, Sole, Only, AllClean, Zeroed, sl-lt}

abbrev pub Fresh : Option Node → Type 0
Fresh none = Unit
Fresh (some m) = Zeroed m

-- what a call of `alloc_node` gives, and what it leaves
abbrev pub IsFresh : Allocated → Type 0
IsFresh a = Fresh a.node × AllClean a.pool.deleted_node

zalloc-IsFresh : (p : Pool) (l : List (Option ℕ)) → AllClean p.deleted_node → IsFresh (zalloc p l)
zalloc-IsFresh p [] h = (tt, h)
zalloc-IsFresh p (none ∷ l) h = (tt, h)
zalloc-IsFresh p (some a ∷ l) h =
    (record { only_key = refl; only_val = refl; nchildren = refl; nodes = λ i q. refl }, h)

reclaim-IsFresh :
    (p : Pool) (l : List Node) → AllClean p.deleted_node → AllClean l → IsFresh (reclaim p l)
reclaim-IsFresh p [] h c = zalloc-IsFresh p p.supply h
reclaim-IsFresh p (n ∷ l) h c = (
  record {
    only_key = c.0.only_key;
    only_val = c.0.only_val;
    nchildren = c.0.nchildren;
    nodes = λ i q. elim (eq-cases i 0) [
      | inl e ↦ rw e (store_self n.nodes 0 vacant)
      | inr ne ↦ store_ne n.nodes 0 i vacant ne ∙ c.0.nodes i q ne
    ];
  },
  c.1,
)

-- If the nodes that wait for reuse are clean, `alloc_node` gives a node in the state of cleared
-- memory, or none.
pub alloc_node-IsFresh : (p : Pool) → AllClean p.deleted_node → IsFresh (alloc_node p)
unfolding alloc_node
alloc_node-IsFresh p h = reclaim-IsFresh p p.deleted_node h h

pub pointer_lem : (v : ℕ) → v ≢ 0 → pointer v ≡ value v
pointer_lem v h = rw (==_ne v 0 h)

-- the new node at level 0
abbrev pub new_leaf : Node → (key v : ℕ) → Node
new_leaf m key v = record m {
  only_key = key;
  only_val = v;
  nchildren = 1;
  nodes = store m.nodes (sl key 0) (pointer v);
}

-- the new node at a higher level
abbrev pub new_node : Node → (key v : ℕ) → Node
new_node m key v = record m { only_key = key; only_val = v; nchildren = 0 }

module _ (m : Node) (z : Zeroed m) (key v : ℕ) (some_value : v ≢ 0) where
  pub new_leaf-Only : Only 0 key v (new_leaf m key v)
  new_leaf-Only = record {
    own = refl;
    slot = store_self m.nodes (sl key 0) (pointer v) ∙ pointer_lem v some_value;
    rest = λ i p ne. store_ne m.nodes (sl key 0) i (pointer v) ne ∙ z.nodes i p;
    counted = rw (store_self m.nodes (sl key 0) (pointer v), pointer_lem v some_value);
  }

  pub new_node-Only : (lev : ℕ) → Only (suc lev) key v (new_node m key v)
  new_node-Only lev = (
    record {
      own = refl;
      slot =
          subst (In (Only lev key v)) (sym (z.nodes (sl key (suc lev)) (sl-lt key (suc lev)))) tt;
      rest = λ i p ne. z.nodes i p;
      counted = rw (z.nodes (sl key (suc lev)) (sl-lt key (suc lev)));
    },
    refl,
  )

-- The one slot of a node gets another node.
pub Sole-store :
    (P Q : Node → Type 0) (lev key : ℕ) (n m : Node)
    → Sole (In P) lev key n
    → Q m
    → (c : ℕ) → c ≡ 1
    → Sole (In Q) lev key (record n { nodes = store n.nodes (sl key lev) (child m); nchildren = c })
Sole-store P Q lev key n m s h c e = record {
  own = s.own;
  slot = subst (In Q) (sym (store_self n.nodes (sl key lev) (child m))) h;
  rest = λ i p ne. store_ne n.nodes (sl key lev) i (child m) ne ∙ s.rest i p ne;
  counted = rw (store_self n.nodes (sl key lev) (child m)) e;
}
