-- ===== src/CritnibTag/Find.antt =====
-- The readers of critnib-tag.c, on a structure at rest.
use ptok.Base.{
  ℕ, zero, suc, ◌+◌, ◌%◌, bit_and, bit_xor, Option, none, some, if◌then◌else◌, ◌==◌, ltb, leb,
}
use ptok.Word.{word, shr, complement}
use ptok.Critnib.Tree.{Tree, null, leaf, node, Critnib, is_null, deleted_life, slnodes, nib_mask}

unfoldable pub get_walk : (key : ℕ) → Tree → ℕ
get_walk key null = 0
get_walk key (leaf a k v) = if k == key then v else 0
get_walk key (node a path shift child) = get_walk key (child (bit_and (shr key shift) nib_mask))

unfoldable pub retry : (fuel : ℕ) (wrs1 wrs2 : ℕ) → ℕ → Option ℕ
retry zero wrs1 wrs2 res = none
retry (suc fuel) wrs1 wrs2 res =
    let again = retry fuel wrs1 wrs2 res in
    if leb ((wrs1 + deleted_life) % word) wrs2 then again else some res

unfoldable pub critnib_tag_get : (fuel : ℕ) → Critnib → (key : ℕ) → Option ℕ
critnib_tag_get fuel c key = retry fuel c.remove_count c.remove_count (get_walk key c.root)

-- the last child below index `n` that is not NULL
unfoldable pub last_child : (n : ℕ) → (ℕ → Tree) → Option ℕ
last_child zero child = none
last_child (suc n) child = if is_null (child n) then last_child n child else some n

-- each `goto deeper` is a recursive call
unfoldable pub find_successor : Tree → ℕ
find_successor null = 0
find_successor (leaf a k v) = v
find_successor (node a path shift child) = elim (last_child slnodes child) [
  | none ↦ 0
  | some i ↦ find_successor (child i)
]

unfoldable pub search_left : (nib : ℕ) → (ℕ → Tree) → ℕ
search_left nib child = elim (last_child nib child) [ none ↦ 0 | some i ↦ find_successor (child i) ]

unfoldable pub find_le : (key : ℕ) → Tree → ℕ
find_le key null = 0
find_le key (leaf a k v) = if leb k key then v else 0
find_le key (node a path shift child) =
    let nib = bit_and (shr key shift) nib_mask in
    let value = find_le key (child nib) in
    if bit_and (shr (bit_xor key path) shift) (complement nib_mask) == 0
    then if value == 0 then search_left nib child else value
    else if ltb path key
    then find_successor (node a path shift child)
    else 0

unfoldable pub critnib_tag_find_le : (fuel : ℕ) → Critnib → (key : ℕ) → Option ℕ
critnib_tag_find_le fuel c key = retry fuel c.remove_count c.remove_count (find_le key c.root)
