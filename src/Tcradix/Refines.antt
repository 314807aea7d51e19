-- ===== src/Tcradix/Refines.antt =====
-- The operations of tcradix.c against those of a partial function from keys to values.
pub mod Insert
pub mod Remove
pub mod Get
pub mod Refused
pub mod Stocked
use ptok.Base.{
  ℕ, zero, suc, ◌+◌, ◌%◌, ◌<◌, ◌≡◌, ◌≢◌, ◌⊎◌, inl, inr, ◌↔◌, refl, sym, ap, ◌∙◌, arith, Option,
  none, some, ◌==◌, ==_ne, if◌then◌else◌, eq-cases,
}
use mathlib.Core.Path.{subst}
use ptok.Word.{word}
use ptok.Mapping.{Mapping, value_or_null}
use ptok.Tcradix.{Slot, vacant, Node, Head, slnodes, top_empty, sl}
use ptok.Tcradix.Get.{get_walk}
use ptok.Tcradix.Valid.{upper, Sole, Only, Valid, AllClean}
use ptok.Tcradix.Walk.{get_walk-none}
use ptok.Tcradix.Holds.{Holds, Finds, Valid-Finds, Holds-get_walk}

-- the root of a new structure
pub record Unused (n : Node) : Type 0 where
  pub only_key : n.only_key ≡ top_empty
  pub only_val : n.only_val ≡ 0
  pub nchildren : n.nchildren ≡ 0
  pub nodes : (i : ℕ) → i < slnodes → n.nodes i ≡ vacant

-- a root that the code does not take for that of a new structure
pub record Used (n : Node) : Type 0 where
  pub valid : Valid 15 0 n
  pub apart : n.only_key ≡ top_empty → n.nchildren ≢ 0

abbrev pub Root : Node → Type 0
Root n = Unused n ⊎ Used n

-- The entries of 64-bit keys are those of the mapping, in which NULL stands for no entry.
abbrev pub EntryAt : Node → (k w : ℕ) → Type 0
EntryAt n k w = (v : ℕ) → v ≢ 0 → Holds 15 0 k v n ↔ (w ≡ v)

pub record Represents (h : Head) (m : Mapping) : Type 0 where
  pub root : Root h.root
  pub clean : AllClean h.pool.deleted_node
  pub at_rest : h.write_status % 2 ≡ 0
  pub entries : (k : ℕ) → k < word → EntryAt h.root k (value_or_null (m k))

pub upper-word : (k : ℕ) → k < word → upper k 16 ≡ 0
upper-word k h = omega arith

pub get_walk-Unused : (n : Node) (k : ℕ) → Unused n → get_walk 15 k n ≡ some 0
get_walk-Unused n k u = get_walk-none 14 k n (λ e. omega (arith, u.only_key)) u.only_val

-- The walk finds what is held, and only that.
pub record Walks (n : Node) (k : ℕ) : Type 0 where
  pub finds : Finds 15 0 k n
  pub held : (v : ℕ) → v ≢ 0 → Holds 15 0 k v n → get_walk 15 k n ≡ some v

pub Valid-Walks : (n : Node) (k : ℕ) → k < word → Valid 15 0 n → Walks n k
Valid-Walks n k fits valid = record {
  finds = Valid-Finds 15 0 k n valid (upper-word k fits);
  held = λ v ne h. Holds-get_walk 15 0 k v n valid h;
}

pub Root-Walks : (n : Node) (k : ℕ) → k < word → Root n → Walks n k
Root-Walks n k fits (inl u) = record {
  finds = (0, get_walk-Unused n k u, λ ne. absurd (ne refl));
  held = λ v ne h. elim h [
    | inl open_node ↦ absurd (omega (arith, u.only_key, open_node.0))
    | inr own ↦ absurd (ne (omega (arith, u.only_val, own.2)))
  ];
}
Root-Walks n k fits (inr u) = Valid-Walks n k fits u.valid

module _ (n : Node) (k w : ℕ) (walks : Walks n k) where
  pub EntryAt-get_walk : EntryAt n k w → get_walk 15 k n ≡ some w
  EntryAt-get_walk entry =
      let (r, found, held) = walks.finds in
      found
      ∙ ap some (elim (eq-cases r 0) [
        | inl none_found ↦ elim (eq-cases w 0) [
          | inl e ↦ none_found ∙ sym e
          | inr ne ↦ cc (sym found ∙ walks.held w ne ((entry w ne).1 refl))
        ]
        | inr ne ↦ sym ((entry r ne).0 (held ne))
      ])

  pub get_walk-EntryAt : get_walk 15 k n ≡ some w → EntryAt n k w
  get_walk-EntryAt e v ne = (
    λ h. cc (sym e ∙ walks.held v ne h),
    λ same.
        let (r, found, held) = walks.finds in
        let there : r ≡ v = cc (sym found ∙ e, same) in
        subst (λ x. Holds 15 0 k x n) there (held (λ z. ne (sym there ∙ z))),
  )

-- The lookups of 64-bit keys are those of the mapping.
abbrev pub Reads : Node → Mapping → Type 0
Reads n m = (k : ℕ) → k < word → get_walk 15 k n ≡ some (value_or_null (m k))

pub Represents-Reads : (h : Head) (m : Mapping) → Represents h m → Reads h.root m
Represents-Reads h m rep k fits =
    EntryAt-get_walk h.root k (value_or_null (m k)) (Root-Walks h.root k fits rep.root)
      (rep.entries k fits)

pub Reads-EntryAt :
    (n : Node) (m : Mapping)
    → Root n
    → Reads n m
    → (k : ℕ) → k < word
    → EntryAt n k (value_or_null (m k))
Reads-EntryAt n m root reads k fits =
    get_walk-EntryAt n k (value_or_null (m k)) (Root-Walks n k fits root) (reads k fits)

-- after two more pokes
pub pokes : (w : ℕ) → w % 2 ≡ 0 → ((w + 1) % word + 1) % word % 2 ≡ 0
pokes w h = omega arith
