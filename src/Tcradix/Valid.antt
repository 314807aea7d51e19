-- ===== src/Tcradix/Valid.antt =====
-- What a well-formed node of tcradix.c is, at a level and for the slices above it, its path.
use ptok.Base.{
  ℕ, zero, suc, ◌+◌, ◌*◌, ◌/◌, ◌%◌, ◌^◌, ◌<◌, ◌≡◌, ◌≢◌, ◌⊎◌, sym, ap, ◌∙◌, arith, List, [], ◌∷◌,
}
use ptok.Base.Arrays.{sum}
use ptok.Word.Bits.{bit_and_nib}
use ptok.Word.Slices.{above_lem}
use ptok.Tcradix.{Slot, vacant, value, subtree, Node, node_of, slnodes, sl}

-- the key without the slices below the level
abbrev pub upper : (key lev : ℕ) → ℕ
upper key lev = key / 2 ^ (lev * 4)

pub sl_lem : (key lev : ℕ) → sl key lev ≡ upper key lev % 16
unfolding sl
sl_lem key lev = bit_and_nib (upper key lev)

pub sl-lt : (key lev : ℕ) → sl key lev < slnodes
sl-lt key lev = omega (arith, sl_lem key lev)

pub upper-suc : (key lev : ℕ) → upper key (suc lev) ≡ upper key lev / 16
upper-suc key lev =
    let step : suc lev * 4 ≡ lev * 4 + 4 = omega arith in
    ap (λ (t : ℕ). key / 2 ^ t) step ∙ sym (above_lem key (lev * 4))

-- the path of the child at a slice
pub upper_of_path :
    (key lev path : ℕ) → upper key (suc lev) ≡ path → upper key lev ≡ 16 * path + sl key lev
upper_of_path key lev path e = omega (arith, upper-suc key lev, sl_lem key lev)

pub upper-zero : (key : ℕ) → upper key 0 ≡ key
upper-zero key = omega arith

abbrev pub present : Slot → ℕ
present vacant = 0
present (value v) = 1
present (subtree a k v c nodes) = 1

abbrev pub count : (ℕ → Slot) → ℕ
count nodes = sum slnodes (λ i. present (nodes i))

-- NULL, or a node with the property
abbrev pub In : (Node → Type 0) → Slot → Type 0
In P vacant = Unit
In P (value v) = ⊥
In P (subtree a k v c nodes) = P (node_of a k v c nodes)

-- NULL, or a caller's pointer
abbrev pub IsValue : Slot → Type 0
IsValue vacant = Unit
IsValue (value v) = v ≢ 0
IsValue (subtree a k v c nodes) = ⊥

-- Only the slot of `key` is not NULL, and it has the property.
pub record Sole (S : Slot → Type 0) (lev key : ℕ) (n : Node) : Type 0 where
  pub own : n.only_key ≡ key
  pub slot : S (n.nodes (sl key lev))
  pub rest : (i : ℕ) → i < slnodes → i ≢ sl key lev → n.nodes i ≡ vacant
  pub counted : n.nchildren ≡ present (n.nodes (sl key lev))

-- The node has one key, which it keeps in `only_key`. There may be nodes of the same kind below
-- it on the way to the key's place at level 0, where `only_val` is not read.
abbrev pub Only : (lev key v : ℕ) → Node → Type 0
Only zero key v n = Sole (λ s. s ≡ value v) 0 key n
Only (suc lev) key v n = Sole (In (Only lev key v)) (suc lev) key n × (n.only_val ≡ v)

pub record Leaf (path : ℕ) (n : Node) : Type 0 where
  pub counted : n.nchildren ≡ count n.nodes
  pub values : (i : ℕ) → i < slnodes → IsValue (n.nodes i)
  pub own : n.only_key ≢ 0 → (upper n.only_key 1 ≡ path) × (present (n.nodes (sl n.only_key 0)) ≡ 1)

pub record Branch (C : ℕ → Node → Type 0) (path : ℕ) (n : Node) : Type 0 where
  pub open_node : n.only_key ≡ 0
  pub counted : n.nchildren ≡ count n.nodes
  pub children : (i : ℕ) → i < slnodes → In (C (16 * path + i)) (n.nodes i)

pub record Alone (lev path : ℕ) (n : Node) : Type 0 where
  pub some_key : n.only_key ≢ 0
  pub on_path : upper n.only_key (suc lev) ≡ path
  pub some_value : n.only_val ≢ 0
  pub only : Only lev n.only_key n.only_val n

abbrev pub Valid : (lev path : ℕ) → Node → Type 0
Valid zero path n = Leaf path n
Valid (suc lev) path n = Branch (Valid lev) path n ⊎ Alone (suc lev) path n

-- A node that is ready for reuse, but for the link in `nodes[0]`.
pub record Clean (n : Node) : Type 0 where
  pub only_key : n.only_key ≡ 0
  pub only_val : n.only_val ≡ 0
  pub nchildren : n.nchildren ≡ 0
  pub nodes : (i : ℕ) → i < slnodes → i ≢ 0 → n.nodes i ≡ vacant

abbrev pub AllClean : List Node → Type 0
AllClean [] = Unit
AllClean (n ∷ l) = Clean n × AllClean l

-- cleared memory
pub record Zeroed (n : Node) : Type 0 where
  pub only_key : n.only_key ≡ 0
  pub only_val : n.only_val ≡ 0
  pub nchildren : n.nchildren ≡ 0
  pub nodes : (i : ℕ) → i < slnodes → n.nodes i ≡ vacant
