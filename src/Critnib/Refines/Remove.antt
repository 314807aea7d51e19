-- ===== src/Critnib/Refines/Remove.antt =====
-- `critnib_remove` against the abstract view.
use ptok.Base.{ℕ, ◌%◌, ◌≡◌, refl, sym, ap, ◌∙◌, true, Option, none, some, Bool-cases, inl, inr}
use mathlib.Core.Path.{subst}
use ptok.Critnib.Tree.{Tree, null, leaf, node, Critnib, is_null, deleted_life}
use ptok.Critnib.Pools.{free_node, free_leaf}
use ptok.Critnib.Remove.{
  Unlinked, missing, here, unlinked, fault, Removed, remove_walk, rotate, finish_remove,
  critnib_remove,
}
use ptok.Critnib.Remove.Walk.{Drops, remove_walk-Drops}
use ptok.Critnib.Valid.{Holds, IsValid}
use ptok.Critnib.Mapping.{
  Mapping, update, value_or_null, Reads, Represents, none_of_absent, Reads-update-none,
}

free_node-root : (c : Critnib) (o : Option ℕ) → (free_node c o).root ≡ c.root
unfolding free_node
free_node-root c none = refl
free_node-root c (some n) = refl

free_leaf-root : (c : Critnib) (o : Option ℕ) → (free_leaf c o).root ≡ c.root
unfolding free_leaf
free_leaf-root c none = refl
free_leaf-root c (some k) = refl

pub rotate-root : (c : Critnib) → (rotate c).root ≡ c.root
unfolding rotate
rotate-root c = free_leaf-root _ _ ∙ free_node-root _ _

-- Returned the value and dropped the entry.
abbrev pub RemoveOutcome : Mapping → (key : ℕ) → Removed → Type 0
RemoveOutcome m key r =
    (r.result ≡ some (value_or_null (m key))) × Represents r.critnib (update m key none)

module _ (m : Mapping) (key : ℕ) (t : Tree) (valid : IsValid t) (reads : Reads t m) where
  -- nothing to remove
  absent-Outcome :
      (c : Critnib)
      → c.root ≡ t
      → ((w : ℕ) → ¬ Holds t key w)
      → RemoveOutcome m key (record { result = some 0; critnib = c })
  absent-Outcome c e absent = (
    ap (λ o. some (value_or_null o)) (sym (none_of_absent t m reads key absent)),
    record {
      valid = subst IsValid (sym e) valid;
      reads =
          subst (λ x. Reads x (update m key none)) (sym e)
            (Reads-update-none t t m key reads
              λ k w. (λ h. (h, λ same. absent w (subst (λ x. Holds t x w) same h)), λ h. h.0));
    },
  )

  finish_remove-Outcome :
      (del : ℕ) (c : Critnib)
      → c.root ≡ t
      → (r : Unlinked) → Drops t key r
      → RemoveOutcome m key (finish_remove del c r)
  unfolding finish_remove
  finish_remove-Outcome del c e missing d = absent-Outcome c e d
  finish_remove-Outcome del c e (here k v) d = (
    ap (λ o. some (value_or_null o)) (sym ((reads key v).0 ((d key v).1 (refl, refl)))),
    record {
      valid = tt;
      reads =
          Reads-update-none t null m key reads
            λ j w. (λ h. absurd h, λ h. absurd (h.1 (sym ((d j w).0 h.0).0)));
    },
  )
  finish_remove-Outcome del c e (unlinked v k none t') d = (
    ap (λ o. some (value_or_null o)) (sym ((reads key v).0 d.held)),
    record { valid = d.valid; reads = Reads-update-none t t' m key reads d.entries },
  )
  finish_remove-Outcome del c e (unlinked v k (some n) t') d = (
    ap (λ o. some (value_or_null o)) (sym ((reads key v).0 d.held)),
    record { valid = d.valid; reads = Reads-update-none t t' m key reads d.entries },
  )
  finish_remove-Outcome del c e fault d = absurd d

null-absent : (t : Tree) (k w : ℕ) → is_null t ≡ true → ¬ Holds t k w
null-absent null k w e h = h
null-absent (leaf a j v) k w e h = absurd (cc)
null-absent (node a path shift child) k w e h = absurd (cc)

-- `critnib_remove` never reads `child[-1]`, returns the value of the key (NULL if it has none)
-- and leaves exactly the other entries.
pub critnib_remove-Outcome :
    (c : Critnib) (m : Mapping)
    → Represents c m
    → (key : ℕ) → RemoveOutcome m key (critnib_remove c key)
unfolding critnib_remove
critnib_remove-Outcome c m rep key = elim (Bool-cases (is_null c.root)) [
  | inl e ↦
      rw e
        (absent-Outcome m key c.root rep.valid rep.reads c refl (λ w. null-absent c.root key w e))
  | inr e ↦ rw e (
      finish_remove-Outcome m key c.root rep.valid rep.reads (c.remove_count % deleted_life)
        (rotate c) (rotate-root c) (remove_walk key c.root)
        (remove_walk-Drops c.root key rep.valid))
]
