-- ===== src/Hm/Table.antt =====
-- The table `hms` of hmload.c, and `hm_select`. A reader that would go round once more counts as one
-- that does not return.
use ptok.Base.{ℕ, zero, suc, Option, none, some, List, [], ◌∷◌}
use ptok.Hm.{Supply, Code, ok, eexist, enomem, critbit, tcradix, critnib, critnib_tag, Hm}
use ptok.Critbit.{Critbit, critbit_new, critbit_delete, critbit_get}
use ptok.Critbit.Insert.{critbit_insert}
use ptok.Critbit.Insert as CritbitInsert
use ptok.Critbit.Remove.{critbit_remove}
use ptok.Tcradix.{Head, tcradix_new, tcradix_delete}
use ptok.Tcradix.Insert.{tcradix_insert}
use ptok.Tcradix.Insert as TcradixInsert
use ptok.Tcradix.Remove.{tcradix_remove}
use ptok.Tcradix.Get.{tcradix_get}
use ptok.Critnib.Tree.{Critnib, critnib_new}
use ptok.Critnib.Pools.{critnib_delete}
use ptok.Critnib.Insert.{critnib_insert}
use ptok.Critnib.Insert as CritnibInsert
use ptok.Critnib.Remove.{critnib_remove}
use ptok.Critnib.Find.{critnib_get, critnib_find_le}
use ptok.CritnibTag.Pools.{critnib_tag_new, critnib_tag_delete}
use ptok.CritnibTag.Insert.{critnib_tag_insert}
use ptok.CritnibTag.Remove.{critnib_tag_remove}
use ptok.CritnibTag.Find.{critnib_tag_get, critnib_tag_find_le}

-- a structure at its address, with the memory to come
pub record Owner (S : Type 0) : Type 0 where
  pub self : ℕ
  pub index : S
  pub supply : Supply

-- what a call returned, with the changed state
abbrev pub returned : {S : Type 0} → S → Option ℕ → Option (ℕ × S)
returned s none = none
returned s (some v) = some (v, s)

-- the result of one call of `Malloc`, and the rest
abbrev pub malloc : Supply → Option ℕ × Supply
malloc [] = (none, [])
malloc (a ∷ rest) = (a, rest)

abbrev pub critbit_code : CritbitInsert.Status → Code
critbit_code CritbitInsert.ok = ok
critbit_code CritbitInsert.enomem = enomem

-- critbit.c; `critbit_find_le` aborts
abbrev pub critbit_hm : Hm
critbit_hm = record {
  State = Owner Critbit;
  hm_new = λ self s. record { self = self; index = critbit_new; supply = s };
  hm_delete = λ o. critbit_delete o.self o.index;
  hm_insert = λ o key v.
      let got = malloc o.supply in
      let r = critbit_insert o.index got.0 key v in
      some (critbit_code r.status, record o { index = r.critbit; supply = got.1 });
  hm_remove = λ o key.
      let r = critbit_remove o.index key in some (r.result, record o { index = r.critbit });
  hm_get = λ o key. some (critbit_get o.index key);
  hm_find_le = λ o key. none;
  hm_name = critbit;
  hm_immutable = 2;
}

abbrev pub tcradix_code : TcradixInsert.Status → Head → Option (Code × Head)
tcradix_code TcradixInsert.ok h = some (ok, h)
tcradix_code TcradixInsert.enomem h = some (enomem, h)
tcradix_code TcradixInsert.fault h = none

-- tcradix.c; `tcradix_find_le` aborts
abbrev pub tcradix_hm : Hm
tcradix_hm = record {
  State = Head;
  hm_new = tcradix_new;
  hm_delete = tcradix_delete;
  hm_insert = λ h key v. let r = tcradix_insert h key v in tcradix_code r.status r.head;
  hm_remove = λ h key. let r = tcradix_remove h key in returned r.head r.result;
  hm_get = λ h key. tcradix_get 0 h key;
  hm_find_le = λ h key. none;
  hm_name = tcradix;
  hm_immutable = 2;
}

abbrev pub critnib_code : CritnibInsert.Status → Code
critnib_code CritnibInsert.ok = ok
critnib_code CritnibInsert.eexist = eexist
critnib_code CritnibInsert.enomem = enomem

-- critnib.c
abbrev pub critnib_hm : Hm
critnib_hm = record {
  State = Owner Critnib;
  hm_new = λ self s. record { self = self; index = critnib_new; supply = s };
  hm_delete = λ o. critnib_delete o.self o.index;
  hm_insert = λ o key v.
      let r = critnib_insert o.index o.supply key v in
      some (critnib_code r.status, record o { index = r.critnib; supply = r.supply });
  hm_remove = λ o key.
      let r = critnib_remove o.index key in returned (record o { index = r.critnib }) r.result;
  hm_get = λ o key. critnib_get 1 o.index key;
  hm_find_le = λ o key. critnib_find_le 1 o.index key;
  hm_name = critnib;
  hm_immutable = 0;
}

-- critnib-tag.c
abbrev pub critnib_tag_hm : Hm
critnib_tag_hm = record {
  State = Owner Critnib;
  hm_new = λ self s. record { self = self; index = critnib_tag_new; supply = s };
  hm_delete = λ o. critnib_tag_delete o.self o.index;
  hm_insert = λ o key v.
      let r = critnib_tag_insert o.index o.supply key v in
      some (critnib_code r.status, record o { index = r.critnib; supply = r.supply });
  hm_remove = λ o key.
      let r = critnib_tag_remove o.index key in returned (record o { index = r.critnib }) r.result;
  hm_get = λ o key. critnib_tag_get 1 o.index key;
  hm_find_le = λ o key. critnib_tag_find_le 1 o.index key;
  hm_name = critnib_tag;
  hm_immutable = 0;
}

abbrev pub hms : List Hm
hms = critbit_hm ∷ tcradix_hm ∷ critnib_hm ∷ critnib_tag_hm ∷ []

abbrev pub entry : List Hm → ℕ → Option Hm
entry [] i = none
entry (x ∷ l) zero = some x
entry (x ∷ l) (suc i) = entry l i

-- the entry of `hms` whose functions the interface then calls; `none` is an index out of range
unfoldable pub hm_select : ℕ → Option Hm
hm_select i = entry hms i
