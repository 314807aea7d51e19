-- ===== src/Critnib/Shared.antt =====
-- critnib.c as the readers see it that hold no mutex: memory, which writers change, and `critnib_get`
-- as a machine of which each step is one load (the shift of a node, which is never changed while the
-- node is in use, is read with its child). What follows from it while the tree stays as it is
-- is in `Undisturbed`; `Live` and `Grace` are about what the writers keep for a reader that stands
-- at what they have unlinked.
pub mod Reads
pub mod Live
mod Kept
pub mod Grace
mod Rounds
pub mod Undisturbed
pub mod Dives
use ptok.Base.{ℕ, zero, suc, ◌+◌, ◌%◌, ◌<◌, ◌≡◌, if◌then◌else◌, ◌==◌, leb, List, [], ◌∷◌}
use ptok.Base.Arrays.{store}
use ptok.Word.{word}
use ptok.Critnib.Tree.{Tree, null, leaf, node, slice_index, deleted_life, slnodes}

-- a tagged `struct critnib_node *`
pub data Pointer : Type 0 where
  nil : Pointer
  to_leaf : (address : ℕ) → Pointer
  to_node : (address : ℕ) → Pointer

-- the memory of a `struct critnib_node` or `struct critnib_leaf`, with the fields of both
pub record Cell : Type 0 where
  pub path : ℕ
  pub shift : ℕ
  pub child : ℕ → Pointer
  pub key : ℕ
  pub value : ℕ

-- what a reader loads from: `c->root`, `c->remove_count` and the nodes and leaves
pub record Memory : Type 0 where
  pub root : Pointer
  pub remove_count : ℕ
  pub cell : ℕ → Cell

-- where `critnib_get` stands, with `wrs1` once it is loaded
pub data Reader : Type 0 where
  start : Reader
  counted : (wrs1 : ℕ) → Reader
  diving : (wrs1 : ℕ) → Pointer → Reader
  matched : (wrs1 address : ℕ) → Reader
  checking : (wrs1 res : ℕ) → Reader
  returned : (res : ℕ) → Reader

-- the child that the dive goes to
abbrev pub next : (key : ℕ) → Cell → Pointer
next key n = n.child (slice_index key n.shift)

-- the end of the dive: `res = (n && k->key == key) ? k->value : NULL`
abbrev pub found : (key : ℕ) → Cell → ℕ
found key k = if k.key == key then k.value else 0

-- one load of `critnib_get`, and what the code does with it before the next
unfoldable pub load : (key : ℕ) → Memory → Reader → Reader
load key m start = counted m.remove_count
load key m (counted wrs1) = diving wrs1 m.root
load key m (diving wrs1 nil) = checking wrs1 0
load key m (diving wrs1 (to_leaf a)) =
    if (m.cell a).key == key then matched wrs1 a else checking wrs1 0
load key m (diving wrs1 (to_node a)) = diving wrs1 (next key (m.cell a))
load key m (matched wrs1 a) = checking wrs1 (m.cell a).value
load key m (checking wrs1 res) =
    if leb ((wrs1 + deleted_life) % word) m.remove_count then start else returned res
load key m (returned res) = returned res

unfoldable pub loads : (key : ℕ) → ℕ → Memory → Reader → Reader
loads key zero m r = r
loads key (suc n) m r = loads key n m (load key m r)

-- The reader among the stores of a writer: the states of memory, one after the other, and the
-- number of loads that the reader makes in each.
unfoldable pub interleave : (key : ℕ) → List ℕ → List Memory → Reader → Reader
interleave key ns [] r = r
interleave key [] (m ∷ ms) r = r
interleave key (n ∷ ns) (m ∷ ms) r = interleave key ns ms (loads key n m r)

-- The tagged pointer to a tree, and that memory holds the tree.
unfoldable pub pointer : Tree → Pointer
pointer null = nil
pointer (leaf a k v) = to_leaf a
pointer (node a path shift child) = to_node a

abbrev pub Shows : (ℕ → Cell) → Tree → Type 0
Shows h null = Unit
Shows h (leaf a k v) = ((h a).key ≡ k) × ((h a).value ≡ v)
Shows h (node a path shift child) =
    ((h a).path ≡ path)
    × ((h a).shift ≡ shift)
    × ((i : ℕ) → i < slnodes → ((h a).child i ≡ pointer (child i)) × Shows h (child i))

-- If nothing is stored any more, the dive from the pointer ends with the value `r` within `fuel`
-- loads, at addresses for which `L` holds.
abbrev pub Reaches : (fuel : ℕ) → (ℕ → Cell) → (ℕ → Type 0) → (key : ℕ) → Pointer → ℕ → Type 0
Reaches zero h L key p r = ⊥
Reaches (suc f) h L key nil r = r ≡ 0
Reaches (suc f) h L key (to_leaf a) r = L a × (r ≡ found key (h a))
Reaches (suc f) h L key (to_node a) r = L a × Reaches f h L key (next key (h a)) r
