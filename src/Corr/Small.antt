-- ===== src/Corr/Small.antt =====
-- The tests of a few calls.
use ptok.Base.{ℕ, ◌*◌, ◌≤◌, ◌≡◌, refl, arith, Option, none, some, List}
use ptok.Mapping.{empty, update}
use ptok.Base.Arrays.{successes}
use ptok.Hm.{Supply, Hm}
use ptok.Hm.Laws.{Obeys, ObeysFind}
use ptok.Corr.{test_smoke, test_key0, test_same_only, test_same_two}
use ptok.Corr.Logic.{insert-Ends, check_get-same, check_remove-Ends, insert_again-Ends}

-- the test comes to its end
abbrev pub Completes : Option (List ℕ) → Type 0
Completes r = (freed : List ℕ) × (r ≡ some freed)

module _ (x : Hm) (o : Obeys x) (self : ℕ) (memory : Supply) where
  abbrev start : x.State
  start = x.hm_new self memory

  -- On an index that obeys the laws, with memory for one insertion, every CHECK of test_smoke holds.
  pub test_smoke-Completes : 1 * o.cost ≤ successes memory → Completes (test_smoke x self memory)
  unfolding test_smoke
  test_smoke-Completes enough =
      let h0 = o.new 1 self memory enough (omega arith) in
      let (c1, e1, h1) = insert-Ends x o 0 start empty 123 (omega arith) 456 h0 refl in
      let m1 = update empty 123 (some 456) in
      (
        x.hm_delete c1,
        rw (
          e1,
          check_get-same x o 0 c1 m1 123 (omega arith) 456 h1 refl,
          check_get-same x o 0 c1 m1 124 (omega arith) 0 h1 refl,
        ),
      )

  -- The same of test_key0, with memory for six calls.
  pub test_key0-Completes : 6 * o.cost ≤ successes memory → Completes (test_key0 x self memory)
  unfolding test_key0
  test_key0-Completes enough =
      let h0 = o.new 6 self memory enough (omega arith) in
      let m1 = update empty 1 (some 1) in
      let m2 = update m1 0 (some 2) in
      let m3 = update m2 65536 (some 3) in
      let m4 = update m3 1 none in
      let m5 = update m4 0 none in
      let (c1, e1, h1) = insert-Ends x o 5 start empty 1 (omega arith) 1 h0 refl in
      let (c2, e2, h2) = insert-Ends x o 4 c1 m1 0 (omega arith) 2 h1 refl in
      let (c3, e3, h3) = insert-Ends x o 3 c2 m2 65536 (omega arith) 3 h2 refl in
      let (c4, e4, h4) = check_remove-Ends x o 2 c3 m3 1 (omega arith) 1 h3 refl in
      let (c5, e5, h5) = check_remove-Ends x o 1 c4 m4 0 (omega arith) 2 h4 refl in
      let (c6, e6, h6) = check_remove-Ends x o 0 c5 m5 65536 (omega arith) 3 h5 refl in
      (
        x.hm_delete c6,
        rw (
          e1,
          e2,
          e3,
          check_get-same x o 3 c3 m3 1 (omega arith) 1 h3 refl,
          e4,
          check_get-same x o 2 c4 m4 0 (omega arith) 2 h4 refl,
          e5,
          check_get-same x o 1 c5 m5 65536 (omega arith) 3 h5 refl,
          e6,
        ),
      )

  module _ (f : ObeysFind x o) where
    test_same_only-Completes :
        2 * o.cost ≤ successes memory → Completes (test_same_only x self memory)
    unfolding test_same_only
    test_same_only-Completes enough =
        let h0 = o.new 2 self memory enough (omega arith) in
        let m1 = update empty 123 (some 456) in
        let (c1, e1, h1) = insert-Ends x o 1 start empty 123 (omega arith) 456 h0 refl in
        let (c2, e2, h2) = insert_again-Ends x o 0 c1 m1 123 (omega arith) f 457 456 h1 refl in
        (
          x.hm_delete c2,
          rw (
            e1,
            e2,
            check_get-same x o 0 c2 m1 123 (omega arith) 456 h2 refl,
            check_get-same x o 0 c2 m1 124 (omega arith) 0 h2 refl,
          ),
        )

    test_same_two-Completes :
        3 * o.cost ≤ successes memory → Completes (test_same_two x self memory)
    unfolding test_same_two
    test_same_two-Completes enough =
        let h0 = o.new 3 self memory enough (omega arith) in
        let m1 = update empty 122 (some 111) in
        let m2 = update m1 123 (some 456) in
        let (c1, e1, h1) = insert-Ends x o 2 start empty 122 (omega arith) 111 h0 refl in
        let (c2, e2, h2) = insert-Ends x o 1 c1 m1 123 (omega arith) 456 h1 refl in
        let (c3, e3, h3) = insert_again-Ends x o 0 c2 m2 123 (omega arith) f 457 456 h2 refl in
        (
          x.hm_delete c3,
          rw (
            e1,
            e2,
            e3,
            check_get-same x o 0 c3 m2 122 (omega arith) 111 h3 refl,
            check_get-same x o 0 c3 m2 123 (omega arith) 456 h3 refl,
            check_get-same x o 0 c3 m2 124 (omega arith) 0 h3 refl,
          ),
        )

    -- On an index that obeys the laws and those of find_le, with memory for three calls, every CHECK
    -- of test_same_only and of test_same_two holds: a second insertion of a key changes nothing.
    pub test_same-Completes :
        3 * o.cost ≤ successes memory
        → Completes (test_same_only x self memory) × Completes (test_same_two x self memory)
    test_same-Completes enough =
        (test_same_only-Completes (omega (arith, enough)), test_same_two-Completes enough)
