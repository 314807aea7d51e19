-- ===== src/Tcradix/Refines/Remove.antt =====
-- `tcradix_remove` against the abstract view.
use ptok.Base.{
  ℕ, suc, ◌<◌, ◌≡◌, ◌≢◌, sym, ap, ◌∙◌, arith, none, some, ◌==◌, ==_ne, ==_iff, if◌then◌else◌, false,
  eq-cases, inl, inr,
}
use ptok.Word.{word}
use ptok.Mapping.{Mapping, update, value_or_null}
use mathlib.Core.Path.{subst}
use ptok.Tcradix.{vacant, sl, Node, Head, Pool, write_poke}
use ptok.Tcradix.Remove.{Removal, is_empty, nremove, Removed, tcradix_remove}
use ptok.Tcradix.Get.{get_walk}
use ptok.Tcradix.Valid.{sl-lt, present, In, Only, AllClean}
use ptok.Tcradix.Drop.{get_walk-Blank, is_own-other, nremove-Emptied}
use ptok.Tcradix.Removal.{found_after, Blank-Valid}
use ptok.Tcradix.Shrink.{nremove-Removes}
use ptok.Tcradix.Refines.{
  Unused, Used, Root, Represents, upper-word, get_walk-Unused, pokes, Represents-Reads,
  Reads-EntryAt,
}

-- returned the value and dropped the entry
abbrev pub RemoveOutcome : Mapping → (key : ℕ) → Removed → Type 0
RemoveOutcome m key r =
    (r.result ≡ some (value_or_null (m key))) × Represents r.head (update m key none)

-- what the walk does to the root
record Walked (n : Node) (key : ℕ) (r : Removal) : Type 0 where
  root : Root r.node
  clean : AllClean r.pool.deleted_node
  found : r.found ≡ get_walk 15 key n
  change :
      (k : ℕ) → k < word → get_walk 15 k r.node ≡ (if key == k then some 0 else get_walk 15 k n)

found_after_null : (w : ℕ) → found_after (some 0) w ≡ some w
found_after_null w = elim (eq-cases w 0) [ inl e ↦ rw e | inr ne ↦ rw (==_ne w 0 ne) ]

Used-Walked :
    (key : ℕ) (p : Pool) (n : Node)
    → AllClean p.deleted_node
    → Used n
    → key < word
    → Walked n key (nremove 15 key p n (some 0))
Used-Walked key p n c u fits =
    let r = nremove-Removes 15 0 key p n (some 0) c u.valid (upper-word key fits) in
    let (w, before, found) = r.found in
    record {
      root = inr (record {
        valid = r.valid;
        apart = λ e.
            let ne : (nremove 15 key p n (some 0)).node.only_key ≢ 0 = λ x. omega (arith, e, x) in
            r.ready ne (u.apart (sym (r.own ne) ∙ e));
      });
      clean = r.clean;
      found = found ∙ found_after_null w ∙ sym before;
      change = λ k q. r.change k (upper-word k q);
    }

-- a node without children that keeps another key
missed-Unused :
    (lev key : ℕ) (p : Pool) (n : Node)
    → n.only_key ≢ 0
    → n.only_key ≢ key
    → n.nodes (sl key (suc lev)) ≡ vacant
    → nremove (suc lev) key p n (some 0)
      ≡ record { emptied = false; found = some 0; node = n; pool = p }
unfolding nremove
missed-Unused lev key p n some_key other e =
    let kept : is_empty n ≡ false = ground arith in rw (is_own-other n key other, e, kept)

-- as in a node that has one key, whose value is NULL
Unused-Only : (n : Node) (key : ℕ) → n.only_key ≡ key → Unused n → Only 15 key 0 n
Unused-Only n key same u =
    let empty = u.nodes (sl key 15) (sl-lt key 15) in
    (
      record {
        own = same;
        slot = subst (In (Only 14 key 0)) (sym empty) tt;
        rest = λ i q ne. u.nodes i q;
        counted = u.nchildren ∙ sym (ap present empty);
      },
      u.only_val,
    )

Unused-Walked :
    (key : ℕ) (p : Pool) (n : Node)
    → AllClean p.deleted_node
    → Unused n
    → Walked n key (nremove 15 key p n (some 0))
Unused-Walked key p n c u = elim (eq-cases n.only_key key) [
  | inl same ↦
      let h =
        nremove-Emptied 15 key 0 p n (some 0) (λ e. omega (arith, u.only_key, same, e))
          (Unused-Only n key same u) c in
      record {
        root = inr (record {
          valid = Blank-Valid 15 0 _ h.blank;
          apart = λ e. absurd (omega (arith, e, h.blank.only_key));
        });
        clean = h.clean;
        found = h.found ∙ sym (get_walk-Unused n key u);
        change = λ k q. get_walk-Blank 15 k _ h.blank ∙ elim (eq-cases key k) [
          | inl e ↦ rw ((==_iff key k).1 e)
          | inr other ↦ rw (==_ne key k other) (sym (get_walk-Unused n k u))
        ];
      }
  | inr ne ↦
      rw
        (missed-Unused 14 key p n (λ e. omega (arith, u.only_key, e)) ne
          (u.nodes (sl key 15) (sl-lt key 15)))
        (record {
          root = inl u;
          clean = c;
          found = sym (get_walk-Unused n key u);
          change = λ k q. elim (eq-cases key k) [
            | inl e ↦ rw ((==_iff key k).1 e) (get_walk-Unused n k u)
            | inr other ↦ rw (==_ne key k other)
          ];
        })
]

Root-Walked :
    (key : ℕ) (p : Pool) (n : Node)
    → AllClean p.deleted_node
    → Root n
    → key < word
    → Walked n key (nremove 15 key p n (some 0))
Root-Walked key p n c (inl u) fits = Unused-Walked key p n c u
Root-Walked key p n c (inr u) fits = Used-Walked key p n c u fits

-- On a structure that represents a partial function, `tcradix_remove` of a 64-bit key returns its
-- value, or NULL if it has none, and drops the key from the function.
pub tcradix_remove-Outcome :
    (h : Head) (m : Mapping) (key : ℕ)
    → Represents h m
    → key < word
    → RemoveOutcome m key (tcradix_remove h key)
unfolding tcradix_remove write_poke
tcradix_remove-Outcome h m key rep fits =
    let w = Root-Walked key h.pool h.root rep.clean rep.root fits in
    let reads = Represents-Reads h m rep in
    (
      w.found ∙ reads key fits,
      record {
        root = w.root;
        clean = w.clean;
        at_rest = pokes h.write_status rep.at_rest;
        entries = Reads-EntryAt (tcradix_remove h key).head.root (update m key none) w.root λ k q.
            w.change k q ∙ elim (eq-cases key k) [
              | inl same ↦ rw ((==_iff key k).1 same, (==_iff k key).1 (sym same))
              | inr ne ↦ rw (==_ne key k ne, ==_ne k key (λ e. ne (sym e))) (reads k q)
            ];
      },
    )
