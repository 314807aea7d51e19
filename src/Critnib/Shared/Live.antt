-- ===== src/Critnib/Shared/Live.antt =====
-- The grace period. A reader that has loaded the count `s` may stand at what is in the tree now,
-- and at what went into a pending slot since: while fewer than 16 removes have begun, none of that
-- is handed out again.
use ptok.Base.{
  ℕ, ◌+◌, ◌%◌, ◌≤◌, ◌<◌, ◌≡◌, ◌≢◌, sym, ap, ◌∙◌, ◌⊎◌, inl, inr, arith, Option, none, some,
  Bool-cases, eq-cases,
}
use mathlib.Core.Path.{subst}
use ptok.Base.Arrays.{store_self, store_ne}
use ptok.Word.{word}
use ptok.Critnib.Tree.{Critnib, is_null, deleted_life}
use ptok.Critnib.Pools.{free_leaf, free_node}
use ptok.Critnib.Remove.{
  Unlinked, missing, here, unlinked, fault, remove_walk, rotate, finish_remove, critnib_remove,
}
use ptok.Critnib.Refines.Remove.{rotate-root}
use ptok.Critnib.Counts.{rotate-count, finish_remove-count, critnib_remove-count}
use ptok.Critnib.Owned.{in_option, in_tree}
use ptok.Critnib.Owned.Remove.{Loses, remove_walk-Loses, free-pending}

-- the slot of the remove that found the count `d` holds the address
abbrev pub Pending : Critnib → (d x : ℕ) → Type 0
Pending c d x =
    1
    ≤ in_option x (c.pending_del_nodes (d % deleted_life))
      + in_option x (c.pending_del_leaves (d % deleted_life))

-- A remove that began before the count `s` was loaded may still have had its stores to make.
abbrev pub Live : Critnib → (s x : ℕ) → Type 0
Live c s x = (1 ≤ in_tree x c.root) ⊎ ((d : ℕ) × (s ≤ d + 1) × (d < c.remove_count) × Pending c d x)

-- `rotate` touches one slot only
rotate-Pending :
    (c : Critnib) (d x : ℕ)
    → d % deleted_life ≢ c.remove_count % deleted_life
    → Pending c d x
    → Pending (rotate c) d x
unfolding rotate
rotate-Pending c d x ne h =
    let del = c.remove_count % deleted_life in
    let n = c.pending_del_nodes del in
    let k = c.pending_del_leaves del in
    let c1 = record c { remove_count = (c.remove_count + 1) % word } in
    let c2 = free_leaf (free_node c1 n) k in
    let keep = free-pending x c1 n k in
    omega (
      arith,
      h,
      ap (in_option x) (store_ne c2.pending_del_nodes del (d % deleted_life) none ne),
      ap (in_option x) (store_ne c2.pending_del_leaves del (d % deleted_life) none ne),
      ap (λ (f : ℕ → Option ℕ). in_option x (f (d % deleted_life))) keep.0,
      ap (λ (f : ℕ → Option ℕ). in_option x (f (d % deleted_life))) keep.1,
    )

-- what the end of a remove puts into the slot, and leaves in the others
finish_remove-Pending :
    (del : ℕ) (c : Critnib) (d x : ℕ)
    → d % deleted_life ≢ del
    → Pending c d x
    → (r : Unlinked) → Pending (finish_remove del c r).critnib d x
unfolding finish_remove
finish_remove-Pending del c d x ne h missing = h
finish_remove-Pending del c d x ne h (here k v) =
    omega (
      arith,
      h,
      ap (in_option x) (store_ne c.pending_del_leaves del (d % deleted_life) (some k) ne),
    )
finish_remove-Pending del c d x ne h (unlinked v k none t) =
    omega (
      arith,
      h,
      ap (in_option x) (store_ne c.pending_del_leaves del (d % deleted_life) (some k) ne),
    )
finish_remove-Pending del c d x ne h (unlinked v k (some n) t) = omega (
  arith,
  h,
  ap (in_option x) (store_ne c.pending_del_leaves del (d % deleted_life) (some k) ne),
  ap (in_option x) (store_ne c.pending_del_nodes del (d % deleted_life) (some n) ne),
)
finish_remove-Pending del c d x ne h fault = h

-- an address of the tree stays there or goes to the slot
finish_remove-tree :
    (d : ℕ) (c : Critnib) (x : ℕ)
    → 1 ≤ in_tree x c.root
    → (r : Unlinked) → Loses x c.root r
    → let c' = (finish_remove (d % deleted_life) c r).critnib in
      (1 ≤ in_tree x c'.root) ⊎ Pending c' d x
unfolding finish_remove
finish_remove-tree d c x h missing l = inl h
finish_remove-tree d c x h (here k v) l = inr (
    omega
      (arith, h, l, ap (in_option x) (store_self c.pending_del_leaves (d % deleted_life) (some k))))
finish_remove-tree d c x h (unlinked v k none t) l = elim (eq-cases (in_tree x t) 0) [
  | inl e ↦ inr (
      omega (
        arith,
        h,
        l,
        e,
        ap (in_option x) (store_self c.pending_del_leaves (d % deleted_life) (some k)),
      ))
  | inr ne ↦ inl (omega (arith, ne))
]
finish_remove-tree d c x h (unlinked v k (some n) t) l = elim (eq-cases (in_tree x t) 0) [
  | inl e ↦ inr (
      omega (
        arith,
        h,
        l,
        e,
        ap (in_option x) (store_self c.pending_del_leaves (d % deleted_life) (some k)),
        ap (in_option x) (store_self c.pending_del_nodes (d % deleted_life) (some n)),
      ))
  | inr ne ↦ inl (omega (arith, ne))
]
finish_remove-tree d c x h fault l = inl h

-- What a reader may stand at it may still stand at after a remove, as long as the reader would
-- accept what it has found.
pub critnib_remove-Live :
    (c : Critnib) (key s x : ℕ)
    → (critnib_remove c key).critnib.remove_count < s + deleted_life
    → s ≤ c.remove_count + 1
    → c.remove_count + 1 < word
    → Live c s x
    → Live (critnib_remove c key).critnib s x
unfolding critnib_remove
critnib_remove-Live c key s x grace before no_wrap l = elim (Bool-cases (is_null c.root)) [
  | inl e ↦ rw e l
  | inr e ↦
      let del = c.remove_count % deleted_life in
      let r = remove_walk key c.root in
      let counts : (finish_remove del (rotate c) r).critnib.remove_count ≡ c.remove_count + 1 =
        omega (arith, finish_remove-count del (rotate c) r, rotate-count c) in
      let counted : (critnib_remove c key).critnib.remove_count ≡ (c.remove_count + 1) % word =
        critnib_remove-count c key ∙ rw e in
      rw e (elim l [
        | inl h ↦
            elim (finish_remove-tree c.remove_count (rotate c) x
              (omega (arith, h, ap (in_tree x) (rotate-root c))) r
              (subst (λ t. Loses x t r) (sym (rotate-root c)) (remove_walk-Loses x key c.root))) [
                | inl t ↦ inl t
                | inr p ↦ inr (c.remove_count, before, omega (arith, counts), p)
              ]
        | inr h ↦
            let (d, since, past, p) = h in
            let ne : d % deleted_life ≢ c.remove_count % deleted_life =
              omega (arith, grace, since, past, counted, no_wrap) in
            inr (
              d,
              since,
              omega (arith, counts, past),
              finish_remove-Pending del (rotate c) d x ne (rotate-Pending c d x ne p) r,
            )
      ])
]
