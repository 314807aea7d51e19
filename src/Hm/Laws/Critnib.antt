-- ===== src/Hm/Laws/Critnib.antt =====
-- critnib.c obeys the laws of the interface, with at most two calls of `Malloc` for an insertion.
use ptok.Base.{
  ℕ, suc, ◌+◌, ◌*◌, ◌<◌, ◌≤◌, ◌≡◌, ◌≢◌, refl, ap, ◌∙◌, arith, Option, none, some, List, [], ◌∷◌,
}
use ptok.Base.Arrays.{successes}
use ptok.Word.{word}
use ptok.Mapping.{Mapping, empty, update, value_or_null}
use ptok.Hm.{Supply, Code, Hm}
use ptok.Hm as Hm
use ptok.Hm.Table.{Owner, critnib_hm, critnib_code, returned}
use ptok.Hm.Laws.{Obeys, ObeysFind}
use ptok.Critnib.Tree.{leaf, Critnib, critnib_new, deleted_life}
use ptok.Critnib.Pools.{Allocated, take_leaf, take_node, alloc_leaf, alloc_node}
use ptok.Critnib.Insert.{
  Status, ok, eexist, enomem, Placed, linked, split, present, no_node, insert_walk, insert_leaf,
  finish_insert, critnib_insert,
}
use ptok.Critnib.Remove.{critnib_remove}
use ptok.Critnib.Mapping.{Represents}
use ptok.Critnib.Refines.Find.{critnib_get-value, critnib_find_le-MapFloor}
use ptok.Critnib.Refines.Insert.{InsertOutcome, critnib_insert-Outcome}
use ptok.Critnib.Refines.Memory.{critnib_insert-ne-enomem}
use ptok.Critnib.Refines.Remove.{critnib_remove-Outcome}
use ptok.Critnib.Counts.{critnib_insert-count, remove_count-le}

pub record Holds (b : ℕ) (o : Owner Critnib) (m : Mapping) : Type 0 where
  pub represents : Represents o.index m
  pub count : o.index.remove_count + b + deleted_life < word
  pub enough : 2 * b ≤ successes o.supply

-- each allocation takes one call at most
take_leaf-successes :
    (c : Critnib) (s : Supply) (l : List ℕ) → successes s ≤ successes (take_leaf c s l).supply + 1
take_leaf-successes c [] [] = omega arith
take_leaf-successes c (none ∷ s) [] = omega arith
take_leaf-successes c (some a ∷ s) [] = omega arith
take_leaf-successes c s (k ∷ l) = omega arith

take_node-successes :
    (c : Critnib) (s : Supply) (l : List ℕ) → successes s ≤ successes (take_node c s l).supply + 1
take_node-successes c [] [] = omega arith
take_node-successes c (none ∷ s) [] = omega arith
take_node-successes c (some a ∷ s) [] = omega arith
take_node-successes c s (k ∷ l) = omega arith

finish_insert-successes :
    (k n : ℕ) (before after : Allocated)
    → n ≤ successes before.supply + 1
    → n ≤ successes after.supply + 2
    → (r : Placed) → n ≤ successes (finish_insert k before after r).supply + 2
finish_insert-successes k n before after p q (linked t) = omega (arith, p)
finish_insert-successes k n before after p q (split t) = q
finish_insert-successes k n before after p q present = omega (arith, p)
finish_insert-successes k n before after p q no_node = q

insert_leaf-successes :
    (key v n : ℕ) (got : Allocated) (o : Option ℕ)
    → n ≤ successes got.supply + 1
    → n ≤ successes (insert_leaf key v got o).supply + 2
unfolding alloc_node
insert_leaf-successes key v n got none h = omega (arith, h)
insert_leaf-successes key v n got (some k) h =
    let after = alloc_node got.critnib got.supply in
    finish_insert-successes k n got after h
      (omega (arith, h, take_node-successes got.critnib got.supply got.critnib.deleted_node))
      (insert_walk after.address (leaf k key v) key got.critnib.root)

critnib_insert-successes :
    (c : Critnib) (s : Supply) (key v : ℕ)
    → successes s ≤ successes (critnib_insert c s key v).supply + 2
unfolding critnib_insert alloc_leaf
critnib_insert-successes c s key v =
    insert_leaf-successes key v (successes s) (alloc_leaf c s) (alloc_leaf c s).address
      (take_leaf-successes c s c.deleted_leaf)

-- two calls that succeed
ne-enomem :
    (c : Critnib) (s : Supply) (key v : ℕ)
    → 2 ≤ successes s
    → (critnib_insert c s key v).status ≢ enomem
ne-enomem c [] key v h = absurd (omega (arith, h))
ne-enomem c (none ∷ s) key v h = absurd (omega (arith, h))
ne-enomem c (some a ∷ []) key v h = absurd (omega (arith, h))
ne-enomem c (some a ∷ none ∷ s) key v h = absurd (omega (arith, h))
ne-enomem c (some a ∷ some b ∷ s) key v h = critnib_insert-ne-enomem c a b s key v

absent-ok :
    (m : Mapping) (key v : ℕ) (c : Critnib) (st : Status)
    → InsertOutcome m key v c st
    → m key ≡ none
    → st ≢ enomem
    → (critnib_code st ≡ Hm.ok) × Represents c (update m key (some v))
absent-ok m key v c ok h fresh ne = (refl, h.1)
absent-ok m key v c eexist h fresh ne = absurd (cc (h.0.1, fresh))
absent-ok m key v c enomem h fresh ne = absurd (ne refl)

present-eexist :
    (m : Mapping) (key v w : ℕ) (c : Critnib) (st : Status)
    → InsertOutcome m key v c st
    → m key ≡ some w
    → st ≢ enomem
    → (critnib_code st ≡ Hm.eexist) × Represents c m
present-eexist m key v w c ok h there ne = absurd (cc (h.0, there))
present-eexist m key v w c eexist h there ne = (refl, h.1)
present-eexist m key v w c enomem h there ne = absurd (ne refl)

abbrev pub inserted : Owner Critnib → (key v : ℕ) → Owner Critnib
inserted o key v =
    let r = critnib_insert o.index o.supply key v in
    record o { index = r.critnib; supply = r.supply }

abbrev pub removed : Owner Critnib → (key : ℕ) → Owner Critnib
removed o key = record o { index = (critnib_remove o.index key).critnib }

module _ (b : ℕ) (o : Owner Critnib) (m : Mapping) (key v : ℕ) (h : Holds (suc b) o m)
    (fits : key < word) where
  after_insert :
      (m' : Mapping) → Represents (inserted o key v).index m' → Holds b (inserted o key v) m'
  after_insert m' rep = record {
    represents = rep;
    count = omega (arith, h.count, critnib_insert-count o.index o.supply key v);
    enough = omega (arith, h.enough, critnib_insert-successes o.index o.supply key v);
  }

  pub insert-Holds :
      m key ≡ none
      → (critnib_code (critnib_insert o.index o.supply key v).status ≡ Hm.ok)
        × Holds b (inserted o key v) (update m key (some v))
  insert-Holds fresh =
      let (st, rep) =
        absent-ok m key v _ _ (critnib_insert-Outcome o.index m h.represents key fits o.supply v)
          fresh (ne-enomem o.index o.supply key v (omega (arith, h.enough))) in
      (st, after_insert (update m key (some v)) rep)

  pub again-Holds :
      (w : ℕ)
      → m key ≡ some w
      → (critnib_code (critnib_insert o.index o.supply key v).status ≡ Hm.eexist)
        × Holds b (inserted o key v) m
  again-Holds w there =
      let (st, rep) =
        present-eexist m key v w _ _
          (critnib_insert-Outcome o.index m h.represents key fits o.supply v) there
          (ne-enomem o.index o.supply key v (omega (arith, h.enough))) in
      (st, after_insert m rep)

  pub remove-Holds :
      m key ≡ some v
      → ((critnib_remove o.index key).result ≡ some v) × Holds b (removed o key) (update m key none)
  remove-Holds there =
      let (found, rep) = critnib_remove-Outcome o.index m h.represents key in
      (
        found ∙ ap (λ x. some (value_or_null x)) there,
        record {
          represents = rep;
          count = omega (arith, h.count, remove_count-le o.index key);
          enough = omega (arith, h.enough);
        },
      )

pub new-Holds :
    (b self : ℕ) (memory : Supply)
    → b * 2 ≤ successes memory
    → b + 16 < word
    → Holds b (record { self = self; index = critnib_new; supply = memory }) empty
unfolding critnib_new
new-Holds b self memory enough limit = record {
  represents = record { valid = tt; reads = λ k v. (λ h. absurd h, λ e. cc e) };
  count = omega (arith, limit);
  enough = omega (arith, enough);
}

abbrev pub critnib_obeys : Obeys critnib_hm
critnib_obeys = record {
  cost = 2;
  Holds = Holds;
  new = new-Holds;
  insert = λ b o m key v h fits fresh.
      let (st, after) = insert-Holds b o m key v h fits fresh in
      (inserted o key v, ap (λ s. some (s, inserted o key v)) st, after);
  remove = λ b o m key v h fits there.
      let (found, after) = remove-Holds b o m key v h fits there in
      (removed o key, ap (returned (removed o key)) found, after);
  get = λ b o m key h fits. critnib_get-value o.index m h.represents (omega (arith, h.count)) 0 key;
}

abbrev pub critnib_obeys_find : ObeysFind critnib_hm critnib_obeys
critnib_obeys_find = record {
  again = λ b o m key v w h fits there.
      let (st, after) = again-Holds b o m key v h fits w there in
      (inserted o key v, ap (λ s. some (s, inserted o key v)) st, after);
  find_le = λ b o m key h fits nulls.
      critnib_find_le-MapFloor o.index m h.represents (omega (arith, h.count)) 0 key fits nulls;
}
