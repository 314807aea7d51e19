-- ===== src/Hm/Laws/Critbit.antt =====
-- critbit.c obeys the laws of the interface, with one call of `Malloc` for each insertion.
use ptok.Base.{ℕ, suc, ◌<◌, ◌≤◌, ◌≡◌, ap, ◌∙◌, arith, none, some, [], ◌∷◌}
use ptok.Base.Arrays.{successes}
use ptok.Word.{word}
use ptok.Mapping.{Mapping, empty, update, value_or_null}
use ptok.Hm.{Supply, ok}
use ptok.Hm.Table.{Owner, critbit_hm, critbit_code, malloc}
use ptok.Hm.Laws.{Obeys}
use ptok.Critbit.{Critbit, critbit_new}
use ptok.Critbit.Insert.{critbit_insert}
use ptok.Critbit.Remove.{critbit_remove}
use ptok.Critbit.Valid.{Represents}
use ptok.Critbit.Refines.Get.{critbit_get-value}
use ptok.Critbit.Refines.Insert.{critbit_insert-Outcome}
use ptok.Critbit.Refines.Remove.{critbit_remove-Outcome}

abbrev Holds : ℕ → Owner Critbit → Mapping → Type 0
Holds b o m = Represents o.index m × (b ≤ successes o.supply)

pub new-Represents : Represents critbit_new empty
unfolding critbit_new
new-Represents = record { valid = tt; agrees = λ k v. (λ h. absurd h, λ h. absurd (cc h)) }

pub insert-Holds :
    (b : ℕ) (o : Owner Critbit) (m : Mapping) (key v : ℕ) (s : Supply)
    → Represents o.index m
    → suc b ≤ successes s
    → key < word
    → m key ≡ none
    → let r = critbit_insert o.index (malloc s).0 key v in
      (critbit_code r.status ≡ ok)
      × Holds b (record o { index = r.critbit; supply = (malloc s).1 }) (update m key (some v))
insert-Holds b o m key v [] rep h fits fresh = absurd (omega (arith, h))
insert-Holds b o m key v (none ∷ s) rep h fits fresh = absurd (omega (arith, h))
insert-Holds b o m key v (some a ∷ s) rep h fits fresh =
    let (st, after) = critbit_insert-Outcome o.index m key v rep fits fresh (some a) in
    (ap critbit_code st, (after, omega (arith, h)))

abbrev inserted : Owner Critbit → (key v : ℕ) → Owner Critbit
inserted o key v =
    let got = malloc o.supply in
    record o { index = (critbit_insert o.index got.0 key v).critbit; supply = got.1 }

abbrev removed : Owner Critbit → (key : ℕ) → Owner Critbit
removed o key = record o { index = (critbit_remove o.index key).critbit }

abbrev pub critbit_obeys : Obeys critbit_hm
critbit_obeys = record {
  cost = 1;
  Holds = Holds;
  new = λ b self memory enough limit. (new-Represents, omega (arith, enough));
  insert = λ b o m key v h fits fresh.
      let (st, after) = insert-Holds b o m key v o.supply h.0 h.1 fits fresh in
      (inserted o key v, ap (λ s. some (s, inserted o key v)) st, after);
  remove = λ b o m key v h fits there.
      let (found, after) = critbit_remove-Outcome o.index m h.0 key in
      (
        removed o key,
        ap (λ x. some (x, removed o key)) (found ∙ ap value_or_null there),
        (after, omega (arith, h.1)),
      );
  get = λ b o m key h fits. ap some (critbit_get-value o.index m h.0 key);
}
