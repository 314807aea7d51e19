-- ===== src/Corr/Main.antt =====
-- The tests on all indexes of the table.
use ptok.Base.{ℕ, ◌+◌, ◌*◌, ◌<◌, ◌≤◌, ◌≡◌, refl, arith, Option, List, [], ◌∷◌}
use native.Mathlib.Nat.{mul-le-mul}
use ptok.Base.Arrays.{length, successes}
use ptok.Word.{word}
use ptok.Hm.{Supply, Hm}
use ptok.Hm.Table.{critbit_hm, tcradix_hm, critnib_hm, critnib_tag_hm, hm_select}
use ptok.Hm.Laws.{Obeys, ObeysFind}
use ptok.Hm.Laws.Critbit.{critbit_obeys}
use ptok.Hm.Laws.Tcradix.{tcradix_obeys}
use ptok.Hm.Laws.Critnib.{critnib_obeys, critnib_obeys_find}
use ptok.Hm.Laws.CritnibTag.{critnib_tag_obeys, critnib_tag_obeys_find}
use ptok.Corr.{
  passed, skipped, verdict, then_rest, run_from, run_test, test_smoke, test_key0, test_1to1000,
  test_insert_delete1_m, test_insert_bulk_delete1_m, test_ffffffff_and_friends,
  test_insert_delete_random, test_le_basic, test_same_only, test_same_two,
}
use ptok.Corr.Small.{Completes, test_smoke-Completes, test_key0-Completes, test_same-Completes}
use ptok.Corr.Loops.{
  AllWords, test_1to1000-Completes, test_insert_delete1_m-Completes,
  test_insert_bulk_delete1_m-Completes, test_insert_delete_random-Completes,
}
use ptok.Corr.Floor.{test_ffffffff_and_friends-Completes, test_le_basic-Completes}

verdict-passed : (r : Option (List ℕ)) → Completes r → verdict r ≡ passed
verdict-passed r c = rw c.1

-- a test that completes on every index
run_test-all :
    (func : Hm → Option (List ℕ))
    → ((x : Hm) (o : Obeys x) → o.cost ≤ 30 → Completes (func x))
    → run_test func 0 ≡ passed ∷ passed ∷ passed ∷ passed ∷ []
unfolding run_test run_from hm_select
run_test-all func h =
    rw
      (
        verdict-passed (func critbit_hm) (h critbit_hm critbit_obeys (omega arith)),
        verdict-passed (func tcradix_hm) (h tcradix_hm tcradix_obeys (omega arith)),
        verdict-passed (func critnib_hm) (h critnib_hm critnib_obeys (omega arith)),
        verdict-passed (func critnib_tag_hm) (h critnib_tag_hm critnib_tag_obeys (omega arith)),
      )
      (unfold then_rest in refl)

-- a test of what critbit.c and tcradix.c do not have
run_test-some :
    (func : Hm → Option (List ℕ))
    → ((x : Hm) (o : Obeys x) → ObeysFind x o → o.cost ≤ 30 → Completes (func x))
    → run_test func 2 ≡ skipped ∷ skipped ∷ passed ∷ passed ∷ []
unfolding run_test run_from hm_select
run_test-some func h =
    rw
      (
        verdict-passed (func critnib_hm)
            (h critnib_hm critnib_obeys critnib_obeys_find (omega arith)),
        verdict-passed (func critnib_tag_hm)
            (h critnib_tag_hm critnib_tag_obeys critnib_tag_obeys_find (omega arith)),
      )
      (unfold then_rest in refl)

module _ (self : ℕ) (memory : Supply) (n max : ℕ) (vs : List ℕ) (fits : AllWords vs)
    (limit : 14 + n + (max + max) + 2 * length vs + 16 < word)
    (enough : (14 + n + (max + max) + 2 * length vs) * 30 ≤ successes memory) where
  abbrev calls : ℕ
  calls = 14 + n + (max + max) + 2 * length vs

  -- for a test of fewer calls
  within : (a cost : ℕ) → a ≤ calls → cost ≤ 30 → a * cost ≤ successes memory
  within a cost p q = omega (arith, mul-le-mul p q, enough)

  -- The seven tests that every index can run pass on all four indexes of the table, with any number
  -- of keys in place of 1000 and of MAX and any 64-bit numbers that rnd64 gives, if so many calls of
  -- `Malloc` succeed that there are 30 for each insertion or removal of the seven tests, counted
  -- together, and these are fewer than 2 ^ 64 - 16.
  pub run_test-passed :
      let every = passed ∷ passed ∷ passed ∷ passed ∷ [] in
      (run_test (λ x. test_smoke x self memory) 0 ≡ every)
      × (run_test (λ x. test_key0 x self memory) 0 ≡ every)
      × (run_test (λ x. test_1to1000 x self memory n) 0 ≡ every)
      × (run_test (λ x. test_insert_delete1_m x self memory max) 0 ≡ every)
      × (run_test (λ x. test_insert_bulk_delete1_m x self memory max) 0 ≡ every)
      × (run_test (λ x. test_ffffffff_and_friends x self memory) 0 ≡ every)
      × (run_test (λ x. test_insert_delete_random x self memory vs) 0 ≡ every)
  run_test-passed = (
    run_test-all _
        (λ x o c. test_smoke-Completes x o self memory (within 1 o.cost (omega arith) c)),
    run_test-all _ (λ x o c. test_key0-Completes x o self memory (within 6 o.cost (omega arith) c)),
    run_test-all _ (λ x o c.
        test_1to1000-Completes x o self memory n (within n o.cost (omega arith) c)
          (omega (arith, limit))),
    run_test-all _ (λ x o c.
        test_insert_delete1_m-Completes x o self memory max
          (within (2 * max) o.cost (omega arith) c) (omega (arith, limit))),
    run_test-all _ (λ x o c.
        test_insert_bulk_delete1_m-Completes x o self memory max
          (within (max + max) o.cost (omega arith) c) (omega (arith, limit))),
    run_test-all _ (λ x o c.
        test_ffffffff_and_friends-Completes x o self memory (within 14 o.cost (omega arith) c)),
    run_test-all _ (λ x o c.
        test_insert_delete_random-Completes x o self memory vs fits
          (within (2 * length vs) o.cost (omega arith) c) (omega (arith, limit))),
  )

-- If 300 calls of `Malloc` succeed, the tests of find_le on a few keys and of a second insertion
-- of a key are skipped for critbit.c and tcradix.c, and pass on critnib.c and critnib-tag.c.
pub run_test-skipped :
    (self : ℕ) (memory : Supply)
    → 300 ≤ successes memory
    → let only = skipped ∷ skipped ∷ passed ∷ passed ∷ [] in
      (run_test (λ x. test_le_basic x self memory) 2 ≡ only)
      × (run_test (λ x. test_same_only x self memory) 2 ≡ only)
      × (run_test (λ x. test_same_two x self memory) 2 ≡ only)
run_test-skipped self memory enough = (
  run_test-some _ (λ x o f c. test_le_basic-Completes x o f self memory (omega (arith, c, enough))),
  run_test-some _ (λ x o f c. (test_same-Completes x o self memory f (omega (arith, c, enough))).0),
  run_test-some _ (λ x o f c. (test_same-Completes x o self memory f (omega (arith, c, enough))).1),
)
