-- ===== src/Tcradix/Holds.antt =====
-- What the tree of tcradix.c holds, said without a walk: `Holds` looks at every slot, and a key is
-- the path to its place at level 0. With it, what `get_walk` finds in a well-formed tree.
use ptok.Base.{
  ℕ, zero, suc, ◌+◌, ◌*◌, ◌<◌, ◌≡◌, ◌≢◌, ◌⊎◌, inl, inr, refl, ap, ◌∙◌, arith, some, eq-cases,
  ==_iff, ==_ne,
}
use mathlib.Core.Path.{subst}
use ptok.Tcradix.{Slot, vacant, value, subtree, Node, node_of, slnodes, sl}
use ptok.Tcradix.Get.{as_pointer, follow, get_walk}
use ptok.Tcradix.Valid.{
  upper, sl_lem, sl-lt, upper-suc, upper_of_path, upper-zero, In, IsValue, Valid,
}
use ptok.Tcradix.Walk.{get_walk-open}

-- a node with the property
abbrev pub Held : (Node → Type 0) → Slot → Type 0
Held P vacant = ⊥
Held P (value v) = ⊥
Held P (subtree a k v c nodes) = P (node_of a k v c nodes)

-- At level 0 the entries are the caller's pointers. Above, a node that has an `only_key` has one
-- entry, and the entries of any other node are those of its children.
abbrev pub Holds : (lev path k v : ℕ) → Node → Type 0
Holds zero path k v n = (i : ℕ) × (i < slnodes) × (k ≡ 16 * path + i) × (n.nodes i ≡ value v)
Holds (suc lev) path k v n =
    ((n.only_key ≡ 0)
      × ((i : ℕ) × (i < slnodes) × Held (Holds lev (16 * path + i) k v) (n.nodes i)))
    ⊎ ((n.only_key ≢ 0) × (n.only_key ≡ k) × (n.only_val ≡ v))

slot-upper :
    (lev path k v : ℕ)
    → ((n : Node) → Valid lev path n → Holds lev path k v n → upper k (suc lev) ≡ path)
    → (s : Slot) → In (Valid lev path) s
    → Held (Holds lev path k v) s
    → upper k (suc lev) ≡ path
slot-upper lev path k v below vacant valid h = absurd h
slot-upper lev path k v below (value w) valid h = absurd h
slot-upper lev path k v below (subtree a j w c nodes) valid h =
    below (node_of a j w c nodes) valid h

-- A key that is held is on the path.
pub Holds-upper :
    (lev path k v : ℕ) (n : Node)
    → Valid lev path n
    → Holds lev path k v n
    → upper k (suc lev) ≡ path
Holds-upper zero path k v n valid (i, p, e, there) = omega (arith, upper-suc k 0, upper-zero k)
Holds-upper (suc lev) path k v n (inl b) (inl (open_node, (i, p, h))) = omega (
  arith,
  upper-suc k (suc lev),
  slot-upper lev (16 * path + i) k v (λ m. Holds-upper lev (16 * path + i) k v m) (n.nodes i)
      (b.children i p) h,
)
Holds-upper (suc lev) path k v n (inl b) (inr (some_key, own, h)) = absurd (some_key b.open_node)
Holds-upper (suc lev) path k v n (inr a) (inl (open_node, h)) = absurd (a.some_key open_node)
Holds-upper (suc lev) path k v n (inr a) (inr (some_key, own, h)) =
    subst (λ x. upper x (suc (suc lev)) ≡ path) own a.on_path

slot-get_walk :
    (lev path k v : ℕ)
    → ((n : Node) → Valid lev path n → Holds lev path k v n → get_walk lev k n ≡ some v)
    → (s : Slot) → In (Valid lev path) s
    → Held (Holds lev path k v) s
    → follow (get_walk lev k) s ≡ some v
slot-get_walk lev path k v below vacant valid h = absurd h
slot-get_walk lev path k v below (value w) valid h = absurd h
slot-get_walk lev path k v below (subtree a j w c nodes) valid h =
    below (node_of a j w c nodes) valid h

get_walk-own :
    (lev : ℕ) (n : Node) → n.only_key ≢ 0 → get_walk (suc lev) n.only_key n ≡ some n.only_val
unfolding get_walk
get_walk-own lev n some_key =
    rw (==_ne n.only_key 0 some_key) (rw ((==_iff n.only_key n.only_key).1 refl))

get_walk-missed :
    (lev k : ℕ) (n : Node) → n.only_key ≢ 0 → n.only_key ≢ k → get_walk (suc lev) k n ≡ some 0
unfolding get_walk
get_walk-missed lev k n some_key ne = rw (==_ne n.only_key 0 some_key) (rw (==_ne n.only_key k ne))

get_walk-zero : (k : ℕ) (n : Node) → get_walk 0 k n ≡ some (as_pointer (n.nodes (sl k 0)))
unfolding get_walk
get_walk-zero k n = refl

-- The walk finds what is held.
pub Holds-get_walk :
    (lev path k v : ℕ) (n : Node)
    → Valid lev path n
    → Holds lev path k v n
    → get_walk lev k n ≡ some v
Holds-get_walk zero path k v n valid (i, p, e, there) =
    let here : sl k 0 ≡ i = omega (arith, sl_lem k 0, upper-zero k) in
    get_walk-zero k n
    ∙ ap (λ x. some (as_pointer (n.nodes x))) here
    ∙ ap (λ s. some (as_pointer s)) there
Holds-get_walk (suc lev) path k v n (inl b) (inl (open_node, (i, p, h))) =
    let below = b.children i p in
    let q = 16 * path + i in
    let on : upper k (suc lev) ≡ q =
      slot-upper lev q k v (λ m. Holds-upper lev q k v m) (n.nodes i) below h in
    let here : sl k (suc lev) ≡ i = omega (arith, sl_lem k (suc lev), on) in
    get_walk-open lev k n open_node
    ∙ ap (λ x. follow (get_walk lev k) (n.nodes x)) here
    ∙ slot-get_walk lev q k v (λ m. Holds-get_walk lev q k v m) (n.nodes i) below h
Holds-get_walk (suc lev) path k v n (inl b) (inr (some_key, own, h)) = absurd (some_key b.open_node)
Holds-get_walk (suc lev) path k v n (inr a) (inl (open_node, h)) = absurd (a.some_key open_node)
Holds-get_walk (suc lev) path k v n (inr a) (inr (some_key, own, own_val)) =
    subst (λ x. get_walk (suc lev) x n ≡ some v) own (get_walk-own lev n some_key ∙ ap some own_val)

-- The walk ends, and what it finds is held.
abbrev pub Finds : (lev path k : ℕ) → Node → Type 0
Finds lev path k n = (r : ℕ) × (get_walk lev k n ≡ some r) × (r ≢ 0 → Holds lev path k r n)

slot-Finds :
    (lev path k : ℕ)
    → ((n : Node) → Valid lev path n → Finds lev path k n)
    → (s : Slot) → In (Valid lev path) s
    → (r : ℕ) × (follow (get_walk lev k) s ≡ some r) × (r ≢ 0 → Held (Holds lev path k r) s)
slot-Finds lev path k below vacant valid = (0, refl, λ ne. absurd (ne refl))
slot-Finds lev path k below (value w) valid = absurd valid
slot-Finds lev path k below (subtree a j w c nodes) valid = below (node_of a j w c nodes) valid

IsValue-as_pointer : (s : Slot) → IsValue s → as_pointer s ≢ 0 → s ≡ value (as_pointer s)
IsValue-as_pointer vacant valid ne = absurd (ne refl)
IsValue-as_pointer (value v) valid ne = refl
IsValue-as_pointer (subtree a k v c nodes) valid ne = absurd valid

pub Valid-Finds :
    (lev path k : ℕ) (n : Node) → Valid lev path n → upper k (suc lev) ≡ path → Finds lev path k n
Valid-Finds zero path k n valid e =
    let i = sl k 0 in
    (
      as_pointer (n.nodes i),
      get_walk-zero k n,
      λ ne. (
        i,
        sl-lt k 0,
        omega (arith, upper-zero k, upper_of_path k 0 path e),
        IsValue-as_pointer (n.nodes i) (valid.values i (sl-lt k 0)) ne,
      ),
    )
Valid-Finds (suc lev) path k n (inl b) e =
    let i = sl k (suc lev) in
    let p = sl-lt k (suc lev) in
    let (r, found, held) =
      slot-Finds lev (16 * path + i) k
        (λ m valid. Valid-Finds lev (16 * path + i) k m valid (upper_of_path k (suc lev) path e))
        (n.nodes i) (b.children i p) in
    (r, get_walk-open lev k n b.open_node ∙ found, λ ne. inl (b.open_node, (i, p, held ne)))
Valid-Finds (suc lev) path k n (inr a) e = elim (eq-cases n.only_key k) [
  | inl same ↦ (
    n.only_val,
    subst (λ x. get_walk (suc lev) x n ≡ some n.only_val) same (get_walk-own lev n a.some_key),
    λ ne. inr (a.some_key, same, refl),
  )
  | inr other ↦ (0, get_walk-missed lev k n a.some_key other, λ ne. absurd (ne refl))
]
