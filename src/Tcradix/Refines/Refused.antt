-- ===== src/Tcradix/Refines/Refused.antt =====
-- `tcradix_insert` of the first key into a structure, when `Malloc` gives no memory for a node.
use ptok.Base.{
  ℕ, suc, ◌+◌, ◌%◌, ◌≡◌, ◌≢◌, refl, sym, ap, ◌∙◌, arith, none, some, [], ==_ne, ==_iff, ==_refl,
}
use ptok.Word.{word}
use ptok.Tcradix.{vacant, Node, Head, Pool, sl, write_poke, zalloc, reclaim, alloc_node}
use ptok.Tcradix.Insert.{enomem, insert_child, insert, tcradix_insert}
use ptok.Tcradix.Get.{get_walk, tcradix_get}
use ptok.Tcradix.Valid.{sl-lt}
use ptok.Tcradix.Refines.{Unused, pokes}
use ptok.Tcradix.Refines.Insert.{first_key-Unused}

-- no memory, neither new nor for reuse
pub record Exhausted (p : Pool) : Type 0 where
  pub deleted_node : p.deleted_node ≡ []
  pub supply : p.supply ≡ []

alloc_node-Exhausted : (p : Pool) → Exhausted p → alloc_node p ≡ record { node = none; pool = p }
unfolding alloc_node
alloc_node-Exhausted p x = ap (reclaim p) x.deleted_node ∙ ap (zalloc p) x.supply

-- an insertion of the key that the node keeps, above a slot that is NULL
insert-Exhausted :
    (lev key v : ℕ) (p : Pool) (n : Node)
    → Exhausted p
    → n.only_key ≡ key
    → key ≢ 0
    → n.nodes (sl key (suc lev)) ≡ vacant
    → insert (suc lev) p n key v
      ≡ record { status = enomem; node = record n { only_val = v }; pool = p }
unfolding insert insert_child
insert-Exhausted lev key v p n x own some_key e = rw (
  ==_ne n.only_key 0 (λ z. some_key (sym own ∙ z)),
  (==_iff n.only_key key).1 own,
  e,
  alloc_node-Exhausted p x,
)

-- The walk finds the key at the root.
get_walk-own :
    (lev key : ℕ) (n : Node)
    → n.only_key ≡ key
    → key ≢ 0
    → get_walk (suc lev) key n ≡ some n.only_val
unfolding get_walk
get_walk-own lev key n own some_key =
    rw (==_ne n.only_key 0 (λ e. some_key (sym own ∙ e)), (==_iff n.only_key key).1 own)

-- The first insertion of a 64-bit key that is not 0 into a new structure that has no memory returns
-- ENOMEM, and yet `tcradix_get` of the key returns the value afterwards.
pub tcradix_insert-refused :
    (h : Head) (key v : ℕ)
    → Unused h.root
    → h.write_status % 2 ≡ 0
    → Exhausted h.pool
    → key ≢ 0
    → v ≢ 0
    → ((tcradix_insert h key v).status ≡ enomem)
      × (tcradix_get 0 (tcradix_insert h key v).head key ≡ some v)
unfolding tcradix_insert tcradix_get write_poke
tcradix_insert-refused h key v u rest x some_key some_value =
    let n1 = record h.root { only_val = v; only_key = key } in
    let even = pokes h.write_status rest in
    rw
      (
        ==_ne v 0 some_value,
        first_key-Unused h.root key v u,
        insert-Exhausted 14 key v h.pool n1 x refl some_key (u.nodes (sl key 15) (sl-lt key 15)),
      )
      (
        refl,
        rw
            (
              ==_ne (((h.write_status + 1) % word + 1) % word % 2) 1 (λ e. omega (arith, even)),
              ==_refl (((h.write_status + 1) % word + 1) % word),
            )
            (get_walk-own 14 key n1 refl some_key),
      )
