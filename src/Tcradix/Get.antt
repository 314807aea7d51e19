-- ===== src/Tcradix/Get.antt =====
-- `tcradix_get`, on a structure that no writer changes meanwhile: the loads of `write_status` all
-- see the same number. The 16 uses of GETL are the levels.
use ptok.Base.{ℕ, zero, suc, ◌-◌, ◌%◌, Option, none, some, Bool, true, false, if◌then◌else◌, ◌==◌}
use ptok.Tcradix.{Slot, vacant, value, subtree, node_of, Node, Head, levels, sl}

-- the pointer in a slot
abbrev pub as_pointer : Slot → ℕ
as_pointer vacant = 0
as_pointer (value v) = v
as_pointer (subtree a k v c nodes) = a

-- `none` is a caller's pointer followed as a node
abbrev pub follow : (Node → Option ℕ) → Slot → Option ℕ
follow below vacant = some 0
follow below (value v) = none
follow below (subtree a k v c nodes) = below (node_of a k v c nodes)

-- above level 0, by `!n->only_key`
abbrev pub get_node : (below : Node → Option ℕ) → (i key : ℕ) → Node → Bool → Option ℕ
get_node below i key n true = follow below (n.nodes i)
get_node below i key n false = if n.only_key == key then some n.only_val else some 0

unfoldable pub get_walk : (lev key : ℕ) → Node → Option ℕ
get_walk zero key n = some (as_pointer (n.nodes (sl key 0)))
get_walk (suc lev) key n = get_node (get_walk lev key) (sl key (suc lev)) key n (n.only_key == 0)

-- the rounds of `get_slow`; `none` in the result's place means that none ended the loop
unfoldable pub get_slow : (fuel : ℕ) → (wrs1 wrs2 : ℕ) → Option ℕ → Option ℕ
get_slow zero wrs1 wrs2 found = none
get_slow (suc fuel) wrs1 wrs2 found =
    let again = get_slow fuel wrs1 wrs2 found in
    if wrs1 % 2 == 1 then again else if wrs1 == wrs2 then found else again

unfoldable pub tcradix_get : (fuel : ℕ) → Head → (key : ℕ) → Option ℕ
tcradix_get fuel h key =
    let found = get_walk (levels - 1) key h.root in
    let slow = get_slow fuel h.write_status h.write_status found in
    if h.write_status % 2 == 1
    then slow
    else if h.write_status == h.write_status
    then found
    else slow
