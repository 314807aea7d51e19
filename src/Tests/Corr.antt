-- ===== src/Tests/Corr.antt =====
-- The tests of 1corr.c with enough memory, by the theorems.
use ptok.Base.{ℕ, zero, suc, ◌+◌, ◌≡◌, refl, ap, arith, some, [], ◌∷◌}
use ptok.Hm.{Supply}
use ptok.Base.Arrays.{successes}
use ptok.Corr.{
  passed, skipped, run_test, test_smoke, test_key0, test_1to1000, test_insert_delete1_m,
  test_insert_bulk_delete1_m, test_ffffffff_and_friends, test_insert_delete_random, test_le_basic,
  test_same_only, test_same_two,
}
use ptok.Corr.Main.{run_test-passed, run_test-skipped}

abbrev addresses : (n a : ℕ) → Supply
addresses zero a = []
addresses (suc n) a = some a ∷ addresses n (a + 1)

successes-addresses : (n a : ℕ) → successes (addresses n a) ≡ n
successes-addresses zero a = refl
successes-addresses (suc n) a = ap suc (successes-addresses n (a + 1))

abbrev memory : Supply
memory = addresses 690 1

run_test-passed_example :
    let every = passed ∷ passed ∷ passed ∷ passed ∷ [] in
    (run_test (λ x. test_smoke x 7 memory) 0 ≡ every)
    × (run_test (λ x. test_key0 x 7 memory) 0 ≡ every)
    × (run_test (λ x. test_1to1000 x 7 memory 3) 0 ≡ every)
    × (run_test (λ x. test_insert_delete1_m x 7 memory 2) 0 ≡ every)
    × (run_test (λ x. test_insert_bulk_delete1_m x 7 memory 2) 0 ≡ every)
    × (run_test (λ x. test_ffffffff_and_friends x 7 memory) 0 ≡ every)
    × (run_test (λ x. test_insert_delete_random x 7 memory (0xdf19b817a2a574f0 ∷ [])) 0 ≡ every)
run_test-passed_example =
    run_test-passed 7 memory 3 2 (0xdf19b817a2a574f0 ∷ []) (omega arith, tt) (omega arith)
      (omega (arith, successes-addresses 690 1))

run_test-skipped_example :
    let only = skipped ∷ skipped ∷ passed ∷ passed ∷ [] in
    (run_test (λ x. test_le_basic x 7 memory) 2 ≡ only)
    × (run_test (λ x. test_same_only x 7 memory) 2 ≡ only)
    × (run_test (λ x. test_same_two x 7 memory) 2 ≡ only)
run_test-skipped_example = run_test-skipped 7 memory (omega (arith, successes-addresses 690 1))
