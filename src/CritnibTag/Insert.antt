-- ===== src/CritnibTag/Insert.antt =====
-- `critnib_tag_insert`: masks and slices are written out where they are used.
use ptok.Base.{ℕ, ◌-◌, ◌^◌, bit_and, bit_xor, Option, none, some, if◌then◌else◌, ◌==◌}
use ptok.Base.Arrays.{store}
use ptok.Word.{shr, shl, complement, util_mssb_index64}
use ptok.Critnib.Tree.{Tree, null, leaf, node, Critnib, nib_mask}
use ptok.Critnib.Pools.{Supply, Allocated}
use ptok.Critnib.Insert.{
  Placed, linked, split, present, no_node, ok, eexist, enomem, Inserted, replace_child,
}
use ptok.CritnibTag.Pools.{alloc_node, alloc_leaf, free_leaf}

-- ~(SLICE - 1), as an `int`
abbrev pub slice_round : ℕ
slice_round = 2 ^ 32 - 4

unfoldable pub split_node : (m : ℕ) (kn : Tree) (key path : ℕ) (n : Tree) → Tree
split_node m kn key path n =
    let sh = bit_and (util_mssb_index64 (bit_xor path key)) slice_round in
    let dir = bit_and (shr key sh) nib_mask in
    node m (bit_and key (shl (complement nib_mask) sh)) sh
      (store (store (λ _. null) dir kn) (bit_and (shr path sh) nib_mask) n)

unfoldable pub part : Option ℕ → (kn : Tree) (key path : ℕ) (n : Tree) → Placed
part fresh kn key path n =
    if bit_xor path key == 0
    then present
    else elim fresh [ none ↦ no_node | some m ↦ split (split_node m kn key path n) ]

unfoldable pub insert_walk : Option ℕ → (kn : Tree) (key : ℕ) → Tree → Placed
insert_walk fresh kn key null = linked kn
insert_walk fresh kn key (leaf a k v) = part fresh kn key k (leaf a k v)
insert_walk fresh kn key (node a path shift child) =
    if bit_and key (shl (complement nib_mask) shift) == path
    then replace_child a path shift child (bit_and (shr key shift) nib_mask)
        (insert_walk fresh kn key (child (bit_and (shr key shift) nib_mask)))
    else part fresh kn key path (node a path shift child)

abbrev pub finish_insert : (k : ℕ) (before after : Allocated) → Placed → Inserted
finish_insert k before after (linked t) = record {
  status = ok;
  critnib = record (before.critnib) { root = t };
  supply = before.supply;
}
finish_insert k before after (split t) = record {
  status = ok;
  critnib = record (after.critnib) { root = t };
  supply = after.supply;
}
finish_insert k before after present = record {
  status = eexist;
  critnib = free_leaf before.critnib (some k);
  supply = before.supply;
}
finish_insert k before after no_node = record {
  status = enomem;
  critnib = free_leaf after.critnib (some k);
  supply = after.supply;
}

abbrev pub insert_leaf : (key value : ℕ) → Allocated → Option ℕ → Inserted
insert_leaf key value got none = record {
  status = enomem;
  critnib = got.critnib;
  supply = got.supply;
}
insert_leaf key value got (some k) =
    let fresh = alloc_node got.critnib got.supply in
    finish_insert k got fresh (insert_walk fresh.address (leaf k key value) key (got.critnib).root)

unfoldable pub critnib_tag_insert : Critnib → Supply → (key value : ℕ) → Inserted
critnib_tag_insert c s key value = let got = alloc_leaf c s in insert_leaf key value got got.address
