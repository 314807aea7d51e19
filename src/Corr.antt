-- ===== src/Corr.antt =====
-- 1corr.c: the correctness tests, as programs over the interface of hmproto.h. A test that comes to
-- its end gives the addresses that `hm_delete` freed; a failed CHECK, which ends the process, is
-- `none`, as is a call that does not return. What the tests draw at random is an argument.
pub mod Logic
pub mod Small
pub mod Loops
pub mod Floor
pub mod Main
use ptok.Base.{
  ℕ, zero, suc, ◌+◌, ◌-◌, Bool, true, false, Option, none, some, List, [], ◌∷◌, if◌then◌else◌, ◌==◌,
  bit_and,
}
use ptok.Word.{word, complement}
use ptok.Hm.{Supply, Code, Hm}
use ptok.Hm.Table.{hm_select}

infixl 5 ◌>>=◌
abbrev pub ◌>>=◌ {ℓ κ} : {A : Type ℓ} {B : Type κ} → Option A → (A → Option B) → Option B
none >>= f = none
some a >>= f = f a

-- the state after an insertion, whatever it returned
abbrev pub state_of : {S : Type 0} → Code × S → Option S
state_of r = some r.1

-- `CHECK(found == expected)`
abbrev pub check : {S : Type 0} → (found expected : ℕ) → S → Option S
check found expected s = if found == expected then some s else none

-- `vals`
abbrev pub ffffffff_vals : List ℕ
ffffffff_vals =
    0 ∷ 0x7fffffff ∷ 0x80000000 ∷ 0xffffffff ∷ 0x7fffffffffffffff ∷ 0x8000000000000000
    ∷ 0xffffffffffffffff ∷ []

module _ (x : Hm) where
  unfoldable pub insert : (key value : ℕ) → x.State → Option x.State
  insert key value c = x.hm_insert c key value >>= state_of

  unfoldable pub check_get : (key expected : ℕ) → x.State → Option x.State
  check_get key expected c = x.hm_get c key >>= λ v. check v expected c

  unfoldable pub check_remove : (key expected : ℕ) → x.State → Option x.State
  check_remove key expected c = x.hm_remove c key >>= λ r. check r.0 expected r.1

  unfoldable pub check_find_le : (key expected : ℕ) → x.State → Option x.State
  check_find_le key expected c = x.hm_find_le c key >>= λ v. check v expected c

  module _ (self : ℕ) (memory : Supply) where
    unfoldable pub test_smoke : Option (List ℕ)
    test_smoke = do
      c ← insert 123 456 (x.hm_new self memory)
      c ← check_get 123 456 c
      c ← check_get 124 0 c
      some (x.hm_delete c)

    unfoldable pub test_key0 : Option (List ℕ)
    test_key0 = do
      c ← insert 1 1 (x.hm_new self memory)
      c ← insert 0 2 c
      c ← insert 65536 3 c
      c ← check_get 1 1 c
      c ← check_remove 1 1 c
      c ← check_get 0 2 c
      c ← check_remove 0 2 c
      c ← check_get 65536 3 c
      c ← check_remove 65536 3 c
      some (x.hm_delete c)

    unfoldable pub test_same_only : Option (List ℕ)
    test_same_only = do
      c ← insert 123 456 (x.hm_new self memory)
      c ← insert 123 457 c
      c ← check_get 123 456 c
      c ← check_get 124 0 c
      some (x.hm_delete c)

    unfoldable pub test_same_two : Option (List ℕ)
    test_same_two = do
      c ← insert 122 111 (x.hm_new self memory)
      c ← insert 123 456 c
      c ← insert 123 457 c
      c ← check_get 122 111 c
      c ← check_get 123 456 c
      c ← check_get 124 0 c
      some (x.hm_delete c)

    unfoldable pub test_le_basic : Option (List ℕ)
    test_le_basic = do
      c ← insert 1 1 (x.hm_new self memory)
      c ← insert 2 2 c
      c ← insert 3 3 c
      c ← insert 0 0 c
      c ← insert 4 4 c
      c ← insert 0xf 0xf c
      c ← insert 0xe 0xe c
      c ← insert 0x11 0x11 c
      c ← insert 0x12 0x12 c
      c ← insert 0x20 0x20 c
      c ← check_get 122 0 c
      c ← check_get 1 1 c
      c ← check_get 2 2 c
      c ← check_get 3 3 c
      c ← check_get 4 4 c
      c ← check_get 5 0 c
      c ← check_get 0x11 0x11 c
      c ← check_get 0x12 0x12 c
      c ← check_find_le 1 1 c
      c ← check_find_le 2 2 c
      c ← check_find_le 5 4 c
      c ← check_find_le 6 4 c
      c ← check_find_le 0x11 0x11 c
      c ← check_find_le 0x15 0x12 c
      c ← check_find_le 0xfffffff 0x20 c
      some (x.hm_delete c)

  -- the loops over i, of which `n` rounds are left
  unfoldable pub insert_all : (n i : ℕ) → x.State → Option x.State
  insert_all zero i c = some c
  insert_all (suc n) i c = do c ← insert i i c; insert_all n (suc i) c

  unfoldable pub check_all : (n i : ℕ) → x.State → Option x.State
  check_all zero i c = some c
  check_all (suc n) i c = do c ← check_get i i c; check_all n (suc i) c

  unfoldable pub insert_delete : (n i : ℕ) → x.State → Option x.State
  insert_delete zero i c = some c
  insert_delete (suc n) i c = do
    c ← check_get i 0 c
    c ← insert i i c
    c ← check_get i i c
    c ← check_remove i i c
    c ← check_get i 0 c
    insert_delete n (suc i) c

  unfoldable pub insert_bulk : (n i : ℕ) → x.State → Option x.State
  insert_bulk zero i c = some c
  insert_bulk (suc n) i c = do
    c ← check_get i 0 c
    c ← insert i i c
    c ← check_get i i c
    insert_bulk n (suc i) c

  unfoldable pub delete_bulk : (n i : ℕ) → x.State → Option x.State
  delete_bulk zero i c = some c
  delete_bulk (suc n) i c = do
    c ← check_get i i c
    c ← check_remove i i c
    c ← check_get i 0 c
    delete_bulk n (suc i) c

  -- `vs` are the results of `rnd64`
  unfoldable pub insert_delete_each : (vs : List ℕ) → x.State → Option x.State
  insert_delete_each [] c = some c
  insert_delete_each (v ∷ vs) c = do
    c ← insert v v c
    c ← check_get v v c
    c ← check_remove v v c
    c ← check_get v 0 c
    insert_delete_each vs c

  -- `~vals[i]` is the value of `vals[i]`
  unfoldable pub insert_vals : (vals : List ℕ) → x.State → Option x.State
  insert_vals [] c = some c
  insert_vals (v ∷ vals) c = do c ← insert v (complement v) c; insert_vals vals c

  unfoldable pub check_vals : (vals : List ℕ) → x.State → Option x.State
  check_vals [] c = some c
  check_vals (v ∷ vals) c = do c ← check_get v (complement v) c; check_vals vals c

  unfoldable pub remove_vals : (vals : List ℕ) → x.State → Option x.State
  remove_vals [] c = some c
  remove_vals (v ∷ vals) c = do c ← check_remove v (complement v) c; remove_vals vals c

  module _ (self : ℕ) (memory : Supply) where
    unfoldable pub test_ffffffff_and_friends : Option (List ℕ)
    test_ffffffff_and_friends = do
      c ← insert_vals ffffffff_vals (x.hm_new self memory)
      c ← check_vals ffffffff_vals c
      c ← remove_vals ffffffff_vals c
      some (x.hm_delete c)

    -- with 1000 for `n`
    unfoldable pub test_1to1000 : (n : ℕ) → Option (List ℕ)
    test_1to1000 n = do
      c ← insert_all n 0 (x.hm_new self memory)
      c ← check_all n 0 c
      some (x.hm_delete c)

    -- with MAX for `n`
    unfoldable pub test_insert_delete1_m : (n : ℕ) → Option (List ℕ)
    test_insert_delete1_m n = do c ← insert_delete n 0 (x.hm_new self memory); some (x.hm_delete c)

    -- with MAX for `n`
    unfoldable pub test_insert_bulk_delete1_m : (n : ℕ) → Option (List ℕ)
    test_insert_bulk_delete1_m n = do
      c ← insert_bulk n 0 (x.hm_new self memory)
      c ← delete_bulk n 0 c
      some (x.hm_delete c)

    unfoldable pub test_insert_delete_random : (vs : List ℕ) → Option (List ℕ)
    test_insert_delete_random vs = do
      c ← insert_delete_each vs (x.hm_new self memory)
      some (x.hm_delete c)

pub data Outcome : Type 0 where
  passed : Outcome
  failed : Outcome
  skipped : Outcome

abbrev pub verdict : Option (List ℕ) → Outcome
verdict none = failed
verdict (some freed) = passed

-- the test on the index that `hm_select` has chosen
abbrev pub run_selected : (func : Hm → Option (List ℕ)) (req : ℕ) → Hm → Outcome
run_selected func req x = if bit_and x.hm_immutable req == 0 then verdict (func x) else skipped

-- A CHECK that fails ends the process, and with it the loop.
unfoldable pub then_rest : Outcome → List Outcome → List Outcome
then_rest passed rest = passed ∷ rest
then_rest failed rest = failed ∷ []
then_rest skipped rest = skipped ∷ rest

-- the loop over i, of which `n` rounds are left
unfoldable pub run_from : (func : Hm → Option (List ℕ)) (req n i : ℕ) → List Outcome
run_from func req zero i = []
run_from func req (suc n) i = elim (hm_select i) [
  | none ↦ failed ∷ []
  | some x ↦ then_rest (run_selected func req x) (run_from func req n (suc i))
]

unfoldable pub run_test : (func : Hm → Option (List ℕ)) (req : ℕ) → List Outcome
run_test func req = run_from func req 4 0
