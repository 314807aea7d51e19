-- ===== src/Tcradix/Refines/Insert.antt =====
-- `tcradix_insert` against the abstract view.
use ptok.Base.{
  ℕ, ◌%◌, ◌<◌, ◌≡◌, ◌≢◌, refl, sym, ap, ◌∙◌, some, ◌==◌, ==_ne, ==_iff, true, false, ◌&&◌,
  Bool-cases, eq-cases, inl, inr,
}
use mathlib.Core.Path.{subst}
use ptok.Word.{word}
use ptok.Mapping.{Mapping, update, value_or_null}
use ptok.Tcradix.{Node, Head, Pool, top_empty, write_poke}
use ptok.Tcradix.Insert.{Status, ok, enomem, fault, insert, first_key, tcradix_insert}
use ptok.Tcradix.Get.{get_walk}
use ptok.Tcradix.Valid.{Valid, AllClean, Zeroed}
use ptok.Tcradix.Walk.{get_walk-Only}
use ptok.Tcradix.Fresh.{new_node, new_node-Only}
use ptok.Tcradix.Link.{Zeroed-Branch}
use ptok.Tcradix.Grow.{Inserts, Only-Valid}
use ptok.Tcradix.Insertion.{insert-Inserts}
use ptok.Tcradix.Refines.{
  Unused, Root, Represents, EntryAt, upper-word, get_walk-Unused, pokes, Represents-Reads,
  Reads-EntryAt, get_walk-EntryAt, Valid-Walks,
}

-- What is left when memory runs out: every key but the one inserted is as before.
pub record Survives (h : Head) (m : Mapping) (key : ℕ) : Type 0 where
  pub valid : Valid 15 0 h.root
  pub clean : AllClean h.pool.deleted_node
  pub at_rest : h.write_status % 2 ≡ 0
  pub entries : (k : ℕ) → k < word → k ≢ key → EntryAt h.root k (value_or_null (m k))

-- 0 with the new entry, or ENOMEM
abbrev pub InsertOutcome : Mapping → (key v : ℕ) → Status → Head → Type 0
InsertOutcome m key v ok h = Represents h (update m key (some v))
InsertOutcome m key v enomem h = Survives h m key
InsertOutcome m key v fault h = ⊥

-- the root before the walk: well formed, with the lookups of the other keys
pub record Started (n0 : Node) (key : ℕ) (n : Node) : Type 0 where
  pub valid : Valid 15 0 n
  pub others : (k : ℕ) → k < word → key ≢ k → get_walk 15 k n ≡ get_walk 15 k n0

-- the root of a new structure keeps the key at once
Unused-Started :
    (n : Node) (key v : ℕ)
    → v ≢ 0
    → key < word
    → Unused n
    → Started n key (record n { only_val = v; only_key = key })
Unused-Started n key v some_value h u =
    let m = record n { only_key = 0; only_val = 0; nchildren = 0 } in
    let z : Zeroed m = record {
      only_key = refl;
      only_val = refl;
      nchildren = refl;
      nodes = u.nodes;
    } in
    let same : new_node m key v ≡ record n { only_val = v; only_key = key } =
      ap (λ (c : ℕ). record n { only_val = v; only_key = key; nchildren = c }) (sym u.nchildren) in
    subst (Started n key) same (elim (eq-cases key 0) [
      | inl e ↦
          let (b, found) = Zeroed-Branch 14 0 v m z in
          let open_node : new_node m 0 v ≡ new_node m key v = ap (λ x. new_node m x v) (sym e) in
          subst (Started n key) open_node
            (record { valid = inl b; others = λ k p ne. found k ∙ sym (get_walk-Unused n k u) })
      | inr ne ↦
          let o = new_node-Only m z key v some_value 14 in
          record {
            valid = Only-Valid 15 0 key v (new_node m key v) ne some_value (upper-word key h) o;
            others = λ k p other.
                get_walk-Only 15 key v 0 (new_node m key v) ne (upper-word key h) o k
                  (upper-word k p)
                ∙ rw (==_ne key k other) (sym (get_walk-Unused n k u));
          }
    ])

pub first_key-Unused :
    (n : Node) (key v : ℕ)
    → Unused n
    → first_key n key v ≡ record n { only_val = v; only_key = key }
first_key-Unused n key v u =
    let unused : (n.only_key == top_empty && n.nchildren == 0) ≡ true =
      rw (u.only_key, u.nchildren) in
    rw unused

pub first_key-Started :
    (n : Node) (key v : ℕ) → v ≢ 0 → key < word → Root n → Started n key (first_key n key v)
first_key-Started n key v some_value h (inl u) =
    rw (first_key-Unused n key v u) (Unused-Started n key v some_value h u)
first_key-Started n key v some_value h (inr u) =
    rw (later) (record { valid = u.valid; others = λ k p ne. refl })
  where
    later : (n.only_key == top_empty && n.nchildren == 0) ≡ false
    later = elim (eq-cases n.only_key top_empty) [
      | inl e ↦
          rw (==_ne n.nchildren 0 (u.apart e))
            (elim (Bool-cases (n.only_key == top_empty)) [ inl x ↦ rw x | inr x ↦ rw x ])
      | inr ne ↦ rw (==_ne n.only_key top_empty ne)
    ]

module _ (h : Head) (m : Mapping) (rep : Represents h m) (key v : ℕ) (fits : key < word) (n : Node)
    (start : Started h.root key n) where
  made-Root :
      {n' : Node} {p : Pool}
      → Inserts 15 0 n key v (record { status = ok; node = n'; pool = p })
      → Root n'
  made-Root i = inr (record { valid = i.valid; apart = λ e. i.made refl })

  outcome :
      (st : Status) (n' : Node) (p : Pool)
      → Inserts 15 0 n key v (record { status = st; node = n'; pool = p })
      → InsertOutcome m key v st (write_poke (record (write_poke h) { root = n'; pool = p }))
  unfolding write_poke
  outcome ok n' p i = record {
    root = made-Root i;
    clean = i.clean;
    at_rest = pokes h.write_status rep.at_rest;
    entries = Reads-EntryAt n' (update m key (some v)) (made-Root i) λ k q.
        i.change k (upper-word k q) ∙ elim (eq-cases key k) [
          | inl same ↦ rw ((==_iff key k).1 same, (==_iff k key).1 (sym same))
          | inr ne ↦
              rw (==_ne key k ne, ==_ne k key (λ e. ne (sym e)))
                (start.others k q ne ∙ Represents-Reads h m rep k q)
        ];
  }
  outcome enomem n' p i = record {
    valid = i.valid;
    clean = i.clean;
    at_rest = pokes h.write_status rep.at_rest;
    entries = λ k q ne. get_walk-EntryAt n' k (value_or_null (m k)) (Valid-Walks n' k q i.valid) (
        i.change k (upper-word k q) (λ e. ne (sym e))
        ∙ start.others k q (λ e. ne (sym e))
        ∙ Represents-Reads h m rep k q);
  }
  outcome fault n' p i = absurd (i.sound refl)

-- On a structure that represents a partial function, `tcradix_insert` of a 64-bit key with a value
-- that is not NULL returns 0 and sets the value of the key, whether it had one or not, or returns
-- ENOMEM and leaves the values of all other keys. The tree stays well formed.
pub tcradix_insert-Outcome :
    (h : Head) (m : Mapping) (key v : ℕ)
    → Represents h m
    → key < word
    → v ≢ 0
    → InsertOutcome m key v (tcradix_insert h key v).status (tcradix_insert h key v).head
unfolding tcradix_insert
tcradix_insert-Outcome h m key v rep fits some_value =
    let start = first_key-Started h.root key v some_value fits rep.root in
    let n = first_key h.root key v in
    let r = insert 15 h.pool n key v in
    rw (==_ne v 0 some_value) (
      outcome h m rep key v fits n start r.status r.node r.pool
        (insert-Inserts 15 0 key v h.pool n some_value rep.clean start.valid (upper-word key fits)))
