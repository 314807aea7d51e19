-- ===== src/Tcradix.antt =====
-- tcradix.c: a radix tree over the 16 slices of a key, the highest first, in which a node below
-- which there is one key only may keep it in `only_key`, and have no children.
pub mod Insert
pub mod Remove
pub mod Get
pub mod Valid
pub mod Walk
pub mod Holds
mod Fresh
mod Alone
mod Grow
mod Link
mod Spread
mod Insertion
pub mod Drop
mod Removal
mod Shrink
pub mod Stock
pub mod Refines
use ptok.Base.{
  ℕ, zero, suc, ◌+◌, ◌-◌, ◌*◌, ◌%◌, ◌^◌, bit_and, Option, none, some, Bool, true, false, List, [],
  ◌∷◌, ◌++◌, if◌then◌else◌, ◌==◌,
}
use ptok.Base.Arrays.{store}
use ptok.Word.{word, shr}

-- `struct tcrnode`, with the address of its memory, over what stands in a slot; `nodes` is used
-- below 16
pub record NodeOf (S : Type 0) : Type 0 where
  pub address : ℕ
  pub only_key : ℕ
  pub only_val : ℕ
  pub nchildren : ℕ
  pub nodes : ℕ → S

-- What stands in `nodes[i]`: NULL, the caller's pointer (at level 0), or a node, whose fields are
-- those of `NodeOf`.
pub data Slot : Type 0 where
  vacant : Slot
  value : ℕ → Slot
  subtree : (address only_key only_val nchildren : ℕ) (nodes : ℕ → Slot) → Slot

abbrev pub Node : Type 0
Node = NodeOf Slot

abbrev pub node_of : (address only_key only_val nchildren : ℕ) (nodes : ℕ → Slot) → Node
node_of a k v n nodes = record {
  address = a;
  only_key = k;
  only_val = v;
  nchildren = n;
  nodes = nodes;
}

abbrev pub child : Node → Slot
child m = subtree m.address m.only_key m.only_val m.nchildren m.nodes

-- a pointer that the caller gave, as it stands in a slot
abbrev pub pointer : ℕ → Slot
pointer v = if v == 0 then vacant else value v

-- The memory of the structure: nodes that wait for reuse, the results of `Malloc` to come (`none`
-- is NULL), and the addresses passed to `Free`, the last first.
pub record Pool : Type 0 where
  pub deleted_node : List Node
  pub supply : List (Option ℕ)
  pub freed : List ℕ

-- `struct tcrhead`
pub record Head : Type 0 where
  pub root : Node
  pub write_status : ℕ
  pub pool : Pool

abbrev pub slnodes : ℕ
slnodes = 16

abbrev pub levels : ℕ
levels = 16

-- TOP_EMPTY
abbrev pub top_empty : ℕ
top_empty = 0xffffffffffffffff

-- memory that `Zalloc` cleared
abbrev pub zeroed : ℕ → Node
zeroed a = record { address = a; only_key = 0; only_val = 0; nchildren = 0; nodes = λ _. vacant }

unfoldable pub tcradix_new : (self : ℕ) → List (Option ℕ) → Head
tcradix_new self supply = record {
  root = record (zeroed self) { only_key = top_empty };
  write_status = 0;
  pool = record { deleted_node = []; supply = supply; freed = [] };
}

unfoldable pub write_poke : Head → Head
write_poke h = record h { write_status = (h.write_status + 1) % word }

unfoldable pub sl : (key lev : ℕ) → ℕ
sl key lev = bit_and (shr key (lev * 4)) (slnodes - 1)

pub record Allocated : Type 0 where
  pub node : Option Node
  pub pool : Pool

abbrev pub zalloc : Pool → List (Option ℕ) → Allocated
zalloc p [] = record { node = none; pool = p }
zalloc p (none ∷ rest) = record { node = none; pool = record p { supply = rest } }
zalloc p (some a ∷ rest) = record { node = some (zeroed a); pool = record p { supply = rest } }

-- `nodes[0]` of a node in the pool is the link of the list
abbrev pub reclaim : Pool → List Node → Allocated
reclaim p [] = zalloc p p.supply
reclaim p (n ∷ rest) = record {
  node = some (record n { nodes = store n.nodes 0 vacant });
  pool = record p { deleted_node = rest };
}

unfoldable pub alloc_node : Pool → Allocated
alloc_node p = reclaim p p.deleted_node

-- the children that `teardown` goes into, each by `below`
abbrev pub teardown_slot : (Node → List ℕ) → Slot → List ℕ
teardown_slot below vacant = []
teardown_slot below (value v) = []
teardown_slot below (subtree a k v n nodes) = below (node_of a k v n nodes)

unfoldable pub each_slot : (Slot → List ℕ) → (n i : ℕ) → (ℕ → Slot) → List ℕ
each_slot below zero i nodes = []
each_slot below (suc n) i nodes = below (nodes i) ++ each_slot below n (suc i) nodes

-- above level 0, by `!n->only_key`
abbrev pub teardown_node : (Slot → List ℕ) → (i : ℕ) → Node → Bool → List ℕ
teardown_node below i n true = each_slot below slnodes 0 n.nodes
teardown_node below i n false = below (n.nodes i)

-- The addresses that `teardown` frees, in order. A caller's pointer above level 0, which the code
-- would take for a node, is passed over.
unfoldable pub teardown : (lev : ℕ) → Node → List ℕ
teardown zero n = n.address ∷ []
teardown (suc lev) n =
    teardown_node (teardown_slot (teardown lev)) (sl n.only_key (suc lev)) n (n.only_key == 0)
    ++ n.address ∷ []

abbrev pub addresses : List Node → List ℕ
addresses [] = []
addresses (n ∷ rest) = n.address ∷ addresses rest

-- the addresses that `tcradix_delete` frees, in order; the structure's own is that of its root
unfoldable pub tcradix_delete : Head → List ℕ
tcradix_delete h = addresses h.pool.deleted_node ++ teardown (levels - 1) h.root
