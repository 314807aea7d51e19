-- ===== src/Hm/Laws/CritnibTag.antt =====
-- critnib-tag.c obeys the laws of the interface, as critnib.c does.
use ptok.Base.{ℕ, suc, ◌≡◌, refl, sym, ap, ◌∙◌, arith, some}
use mathlib.Core.Path.{subst}
use ptok.Mapping.{Mapping, empty}
use ptok.Hm.Table.{Owner, critnib_tag_hm, critnib_code, returned}
use ptok.Hm.Laws.{Obeys, ObeysFind}
use ptok.Hm.Laws.Critnib.{
  Holds, inserted, removed, insert-Holds, again-Holds, remove-Holds, new-Holds,
}
use ptok.Critnib.Tree.{Critnib, critnib_new}
use ptok.Critnib.Insert.{Inserted, critnib_insert}
use ptok.Critnib.Remove.{Removed, critnib_remove}
use ptok.Critnib.Refines.Find.{critnib_get-value, critnib_find_le-MapFloor}
use ptok.CritnibTag.Pools.{critnib_tag_new}
use ptok.CritnibTag.Same.{critnib_tag_insert-eq, critnib_tag_find-eq}
use ptok.CritnibTag.Crash.{critnib_tag_remove-present}

pub tag_new : critnib_tag_new ≡ critnib_new
unfolding critnib_tag_new critnib_new
tag_new = refl

-- what the table makes of an insertion and of a removal
pub tag_insert :
    (o : Owner Critnib) (key v : ℕ)
    → critnib_tag_hm.hm_insert o key v
      ≡ some (critnib_code (critnib_insert o.index o.supply key v).status, inserted o key v)
tag_insert o key v =
    ap
      (λ (r : Inserted).
        some (critnib_code r.status, record o { index = r.critnib; supply = r.supply }))
      (critnib_tag_insert-eq o.index o.supply key v)

pub tag_remove :
    (o : Owner Critnib) (m : Mapping) (key v b : ℕ)
    → Holds b o m
    → m key ≡ some v
    → critnib_tag_hm.hm_remove o key ≡ returned (removed o key) (critnib_remove o.index key).result
tag_remove o m key v b h there =
    ap (λ (r : Removed). returned (record o { index = r.critnib }) r.result)
      (critnib_tag_remove-present o.index m key v h.represents there)

abbrev pub critnib_tag_obeys : Obeys critnib_tag_hm
critnib_tag_obeys = record {
  cost = 2;
  Holds = Holds;
  new = λ b self memory enough limit.
      subst (λ c. Holds b (record { self = self; index = c; supply = memory }) empty) (sym tag_new)
        (new-Holds b self memory enough limit);
  insert = λ b o m key v h fits fresh.
      let (st, after) = insert-Holds b o m key v h fits fresh in
      (inserted o key v, tag_insert o key v ∙ ap (λ s. some (s, inserted o key v)) st, after);
  remove = λ b o m key v h fits there.
      let (found, after) = remove-Holds b o m key v h fits there in
      (
        removed o key,
        tag_remove o m key v (suc b) h there ∙ ap (returned (removed o key)) found,
        after,
      );
  get = λ b o m key h fits.
      (critnib_tag_find-eq 1 o.index key).0
      ∙ critnib_get-value o.index m h.represents (omega (arith, h.count)) 0 key;
}

abbrev pub critnib_tag_obeys_find : ObeysFind critnib_tag_hm critnib_tag_obeys
critnib_tag_obeys_find = record {
  again = λ b o m key v w h fits there.
      let (st, after) = again-Holds b o m key v h fits w there in
      (inserted o key v, tag_insert o key v ∙ ap (λ s. some (s, inserted o key v)) st, after);
  find_le = λ b o m key h fits nulls.
      let (v, e, floor) =
        critnib_find_le-MapFloor o.index m h.represents (omega (arith, h.count)) 0 key fits nulls in
      (v, (critnib_tag_find-eq 1 o.index key).1 ∙ e, floor);
}
