-- ===== src/Critnib/Refines/Insert.antt =====
-- The operations of critnib.c against the abstract view.
use ptok.Base.{ℕ, ◌<◌, ◌≡◌, refl, sym, ◌∙◌, Option, none, some, List, [], ◌∷◌}
use mathlib.Core.Path.{subst}
use ptok.Word.{word}
use ptok.Critnib.Tree.{Tree, leaf, Critnib}
use ptok.Critnib.Pools.{Supply, Allocated, alloc_node, alloc_leaf, take_node, take_leaf, free_leaf}
use ptok.Critnib.Insert.{
  Placed, linked, split, present, no_node, Status, ok, eexist, enomem, insert_leaf, finish_insert,
  insert_walk, critnib_insert,
}
use ptok.Critnib.Insert.Walk.{Adds, insert_walk-Adds}
use ptok.Critnib.Valid.{IsValid}
use ptok.Critnib.Mapping.{Mapping, update, Reads, Represents, none_of_absent, Extends-Reads}

take_leaf-root : (c : Critnib) (s : Supply) (l : List ℕ) → (take_leaf c s l).critnib.root ≡ c.root
take_leaf-root c [] [] = refl
take_leaf-root c (a ∷ s) [] = refl
take_leaf-root c s (k ∷ l) = refl

take_node-root : (c : Critnib) (s : Supply) (l : List ℕ) → (take_node c s l).critnib.root ≡ c.root
take_node-root c [] [] = refl
take_node-root c (a ∷ s) [] = refl
take_node-root c s (n ∷ l) = refl

pub alloc_leaf-root : (c : Critnib) (s : Supply) → (alloc_leaf c s).critnib.root ≡ c.root
unfolding alloc_leaf
alloc_leaf-root c s = take_leaf-root c s c.deleted_leaf

pub alloc_node-root : (c : Critnib) (s : Supply) → (alloc_node c s).critnib.root ≡ c.root
unfolding alloc_node
alloc_node-root c s = take_node-root c s c.deleted_node

-- The structure after `critnib_insert`, for each status.
abbrev pub InsertOutcome : Mapping → (key value : ℕ) → Critnib → Status → Type 0
InsertOutcome m key v c ok = (m key ≡ none) × Represents c (update m key (some v))
InsertOutcome m key v c eexist = ((w : ℕ) × (m key ≡ some w)) × Represents c m
InsertOutcome m key v c enomem = Represents c m

module _ (m : Mapping) (key v : ℕ) (t : Tree) (valid : IsValid t) (reads : Reads t m) where
  same-Represents : (c : Critnib) → c.root ≡ t → Represents c m
  same-Represents c e = record {
    valid = subst IsValid (sym e) valid;
    reads = subst (λ x. Reads x m) (sym e) reads;
  }

  finish_insert-Outcome :
      (fresh : Option ℕ) (k : ℕ) (before after : Allocated)
      → before.critnib.root ≡ t
      → after.critnib.root ≡ t
      → (r : Placed) → Adds fresh t key v r
      → let i = finish_insert k before after r in InsertOutcome m key v i.critnib i.status
  unfolding free_leaf
  finish_insert-Outcome fresh k before after eb ea (linked t') e = (
    none_of_absent t m reads key e.absent,
    record { valid = e.valid; reads = Extends-Reads t m key v t' reads e },
  )
  finish_insert-Outcome fresh k before after eb ea (split t') e = (
    none_of_absent t m reads key e.absent,
    record { valid = e.valid; reads = Extends-Reads t m key v t' reads e },
  )
  finish_insert-Outcome fresh k before after eb ea present e =
      ((e.0, (reads key e.0).0 e.1), same-Represents (free_leaf before.critnib (some k)) eb)
  finish_insert-Outcome fresh k before after eb ea no_node e =
      same-Represents (free_leaf after.critnib (some k)) ea

module _ (c : Critnib) (m : Mapping) (rep : Represents c m) (key : ℕ) (in_word : key < word) where
  insert_leaf-Outcome :
      (v : ℕ) (got : Allocated)
      → got.critnib.root ≡ c.root
      → (o : Option ℕ) → let i = insert_leaf key v got o in InsertOutcome m key v i.critnib i.status
  insert_leaf-Outcome v got e none =
      same-Represents m key v c.root rep.valid rep.reads got.critnib e
  insert_leaf-Outcome v got e (some k) =
      let after = alloc_node got.critnib got.supply in
      finish_insert-Outcome m key v c.root rep.valid rep.reads after.address k got after e
        (alloc_node-root got.critnib got.supply ∙ e)
        (insert_walk after.address (leaf k key v) key got.critnib.root)
        (subst
          (λ t. Adds after.address c.root key v (insert_walk after.address (leaf k key v) key t))
          (sym e) (insert_walk-Adds after.address k key v in_word c.root rep.valid))

  -- `critnib_insert` adds the entry, or refuses a key that has one, or is out of memory and
  -- leaves the entries as they are.
  pub critnib_insert-Outcome :
      (s : Supply) (v : ℕ)
      → let i = critnib_insert c s key v in InsertOutcome m key v i.critnib i.status
  unfolding critnib_insert
  critnib_insert-Outcome s v =
      insert_leaf-Outcome v (alloc_leaf c s) (alloc_leaf-root c s) (alloc_leaf c s).address
