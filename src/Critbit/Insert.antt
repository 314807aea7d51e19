-- ===== src/Critbit/Insert.antt =====
-- `critbit_insert`. One `Zalloc` gives two nodes: the leaf at its address and, `node_size` bytes
-- on, the inner node.
use ptok.Base.{ℕ, ◌+◌, ◌-◌, bit_and, bit_xor, Option, none, some, if◌then◌else◌, ◌==◌}
use ptok.Word.{negate}
use ptok.Critbit.{Node, leaf, fork, Critbit}

pub data Status : Type 0 where
  ok : Status
  enomem : Status

pub record Inserted : Type 0 where
  pub status : Status
  pub critbit : Critbit

-- sizeof(struct critbit_node): two pointers and two `uint64_t`
abbrev pub node_size : ℕ
node_size = 32

-- The inner node over the new leaf and `n`, whose path is `path`. If the key is that of `n`, `at`
-- is 0, so `at - 1` has all bits set and the new node, with `bit` 0, is read as a leaf.
unfoldable pub join : (k key value path : ℕ) → Node → Node
join k key value path n =
    let at = bit_and (bit_xor path key) (negate (bit_xor path key)) in
    if at == 0
    then leaf (k + node_size) key k
    else if bit_and key at == 0
    then fork (k + node_size) (bit_and key (at - 1)) at (leaf k key value) n
    else fork (k + node_size) (bit_and key (at - 1)) at n (leaf k key value)

unfoldable pub insert_walk : (k key value : ℕ) → Node → Node
insert_walk k key value (leaf b path v) = join k key value path (leaf b path v)
insert_walk k key value (fork b path bit left right) =
    let left' = insert_walk k key value left in
    let right' = insert_walk k key value right in
    if bit_and key (bit - 1) == path
    then if bit_and bit key == 0 then fork b path bit left' right else fork b path bit left right'
    else join k key value path (fork b path bit left right)

-- the second argument is what `Zalloc` returns
unfoldable pub critbit_insert : Critbit → Option ℕ → (key value : ℕ) → Inserted
critbit_insert c none key value = record { status = enomem; critbit = c }
critbit_insert c (some k) key value = record {
  status = ok;
  critbit = record c {
    root = some (elim c.root [ none ↦ leaf k key value | some n ↦ insert_walk k key value n ]);
  };
}
