-- ===== src/Hm/Laws/Tcradix.antt =====
-- tcradix.c obeys the laws of the interface, with at most 30 nodes for an insertion.
use ptok.Base.{
  ℕ, zero, suc, ◌*◌, ◌<◌, ◌≤◌, ◌≡◌, refl, sym, ap, ◌∙◌, arith, Option, none, some, Bool, true,
  false, ==_iff, ==_ne, eq-cases, inl, inr, if◌then◌else◌,
}
use mathlib.Core.Path.{subst}
use ptok.Word.{word}
use ptok.Mapping.{Mapping, empty, update, value_or_null}
use ptok.Hm.{Supply, Code}
use ptok.Hm as Hm
use ptok.Hm.Table.{tcradix_hm, tcradix_code, returned}
use ptok.Hm.Laws.{Obeys}
use ptok.Tcradix.{
  Slot, vacant, value, subtree, Node, node_of, Pool, Head, tcradix_new, write_poke, sl,
}
use ptok.Tcradix.Insert.{tcradix_insert}
use ptok.Tcradix.Remove.{Removal, clear_value, after_child, remove_in, nremove, tcradix_remove}
use ptok.Tcradix.Drop.{is_own}
use ptok.Base.Arrays.{successes}
use ptok.Tcradix.Stock.{stock}
use ptok.Tcradix.Refines.{Unused, Represents, EntryAt, Reads-EntryAt, get_walk-Unused}
use ptok.Tcradix.Refines.Get.{tcradix_get-value}
use ptok.Tcradix.Refines.Remove.{tcradix_remove-Outcome}
use ptok.Tcradix.Refines.Stocked.{tcradix_insert-stocked}

abbrev Holds : ℕ → Head → Mapping → Type 0
Holds b h m = Represents h m × (30 * b ≤ stock h.pool)

-- a removal only adds nodes
clear_value-stock :
    (p : Pool) (i : ℕ) (n : Node) (found : Option ℕ) (s : Slot)
    → stock p ≤ stock (clear_value p i n found s).pool
clear_value-stock p i n found vacant = omega arith
clear_value-stock p i n found (value v) = omega arith
clear_value-stock p i n found (subtree a k v c nodes) = omega arith

after_child-stock :
    (i : ℕ) (n : Node) (found : Option ℕ) (m : Node) (p : Pool) (emptied : Bool)
    → stock p ≤ stock (after_child i n found m p emptied).pool
after_child-stock i n found m p true = omega arith
after_child-stock i n found m p false = omega arith

remove_in-stock :
    (below : Pool → Node → Option ℕ → Removal)
    → ((p : Pool) (n : Node) (f : Option ℕ) → stock p ≤ stock (below p n f).pool)
    → (p : Pool) (i : ℕ) (n : Node) (found : Option ℕ) (s : Slot)
    → stock p ≤ stock (remove_in below p i n found s).pool
remove_in-stock below ih p i n found vacant = omega arith
remove_in-stock below ih p i n found (value v) = omega arith
remove_in-stock below ih p i n found (subtree a k v c nodes) =
    let m = node_of a k v c nodes in
    let r = below p m found in
    omega (arith, ih p m found, after_child-stock i n r.found r.node r.pool r.emptied)

nremove-stock :
    (lev key : ℕ) (p : Pool) (n : Node) (found : Option ℕ)
    → stock p ≤ stock (nremove lev key p n found).pool
unfolding nremove
nremove-stock zero key p n found =
    let n1 = if is_own n key then record n { only_key = 0 } else n in
    clear_value-stock p (sl key 0) n1 (if is_own n key then some n.only_val else found)
      (n1.nodes (sl key 0))
nremove-stock (suc lev) key p n found =
    let n1 = if is_own n key then record n { only_key = 0 } else n in
    remove_in-stock (nremove lev key) (λ q m f. nremove-stock lev key q m f) p (sl key (suc lev)) n1
      (if is_own n key then some n.only_val else found) (n1.nodes (sl key (suc lev)))

pub remove-stock : (h : Head) (key : ℕ) → stock h.pool ≤ stock (tcradix_remove h key).head.pool
unfolding tcradix_remove write_poke
remove-stock h key = nremove-stock 15 key h.pool h.root (some 0)

-- NULL is not inserted, and a key without a value reads as one with NULL
null-Represents :
    (h : Head) (m : Mapping) (key : ℕ)
    → Represents h m
    → m key ≡ none
    → Represents h (update m key (some 0))
null-Represents h m key rep fresh = record {
  root = rep.root;
  clean = rep.clean;
  at_rest = rep.at_rest;
  entries = λ k q.
      subst (EntryAt h.root k)
        (elim (eq-cases k key) [
          | inl e ↦
              rw ((==_iff k key).1 e) (ap (λ x. value_or_null (m x)) e ∙ ap value_or_null fresh)
          | inr ne ↦ rw (==_ne k key ne)
        ])
        (rep.entries k q);
}

insert_null : (h : Head) (key : ℕ) → tcradix_hm.hm_insert h key 0 ≡ some (Hm.ok, h)
unfolding tcradix_insert
insert_null h key = refl

pub new-Holds :
    (b self : ℕ) (memory : Supply)
    → b * 30 ≤ successes memory
    → Holds b (tcradix_new self memory) empty
unfolding tcradix_new
new-Holds b self memory enough =
    let u : Unused (tcradix_new self memory).root = record {
      only_key = refl;
      only_val = refl;
      nchildren = refl;
      nodes = λ i p. refl;
    } in
    (
      record {
        root = inl u;
        clean = tt;
        at_rest = refl;
        entries = Reads-EntryAt _ empty (inl u) (λ k p. get_walk-Unused _ k u);
      },
      omega (arith, enough),
    )

pub insert-Holds :
    (b : ℕ) (h : Head) (m : Mapping) (key v : ℕ)
    → Holds (suc b) h m
    → key < word
    → m key ≡ none
    → (h' : Head) × (tcradix_hm.hm_insert h key v ≡ some (Hm.ok, h'))
      × Holds b h' (update m key (some v))
insert-Holds b h m key v holds fits fresh = elim (eq-cases v 0) [
  | inl e ↦
      subst
        (λ x.
          (h' : Head) × (tcradix_hm.hm_insert h key x ≡ some (Hm.ok, h'))
          × Holds b h' (update m key (some x)))
        (sym e)
        (h, insert_null h key, (null-Represents h m key holds.0 fresh, omega (arith, holds.1)))
  | inr ne ↦
      let s = tcradix_insert-stocked h m key v holds.0 fits ne (30 * b) (omega (arith, holds.1)) in
      let h' = (tcradix_insert h key v).head in (h', ap (λ st. tcradix_code st h') s.0, (s.1, s.2))
]

abbrev pub tcradix_obeys : Obeys tcradix_hm
tcradix_obeys = record {
  cost = 30;
  Holds = Holds;
  new = λ b self memory enough limit. new-Holds b self memory enough;
  insert = insert-Holds;
  remove = λ b h m key v holds fits there.
      let (found, rep) = tcradix_remove-Outcome h m key holds.0 fits in
      let h' = (tcradix_remove h key).head in
      (
        h',
        ap (returned h') (found ∙ ap (λ x. some (value_or_null x)) there),
        (rep, omega (arith, holds.1, remove-stock h key)),
      );
  get = λ b h m key holds fits. tcradix_get-value h m key holds.0 fits;
}
