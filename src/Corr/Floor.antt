-- ===== src/Corr/Floor.antt =====
-- test_ffffffff_and_friends, and the test of find_le on a few keys.
use ptok.Base.{
  ℕ, suc, ◌*◌, ◌<◌, ◌≤◌, ◌≡◌, refl, ap, arith, none, some, List, [], ◌∷◌, eq-cases, inl, inr,
}
use ptok.Base.Arrays.{successes}
use ptok.Word.{word, complement}
use ptok.Mapping.{Mapping, empty, update, value_or_null, MapFloor, no_key, greatest, NullAtZero}
use ptok.Hm.{Supply, Hm}
use ptok.Hm.Laws.{Obeys, ObeysFind}
use ptok.Corr.{
  check_find_le, ffffffff_vals, test_ffffffff_and_friends, insert_vals, check_vals, remove_vals,
  test_le_basic,
}
use ptok.Corr.Logic.{Ends, insert-Ends, check_get-same, check_remove-Ends, check_find_le-same}
use ptok.Corr.Small.{Completes}

-- the greatest key is one key
MapFloor-of :
    (m : Mapping) (key k v : ℕ)
    → m k ≡ some v
    → k ≤ key
    → ((j : ℕ) → k < j → j ≤ key → m j ≡ none)
    → (w : ℕ) → MapFloor m key w
    → w ≡ v
MapFloor-of m key k v e low above w (no_key h) = absurd (omega (arith, h k v e))
MapFloor-of m key k v e low above w (greatest j w' held le top) =
    let from_k : k ≤ j = top k v e low in
    elim (eq-cases j k) [
      | inl same ↦ cc (held, e, ap m same)
      | inr ne ↦ absurd (cc (held, above j (omega arith) le))
    ]

-- what the insertions need, and what they leave
abbrev Fresh : List ℕ → Mapping → Type 0
Fresh [] m = Unit
Fresh (v ∷ vs) m = (v < word) × (m v ≡ none) × Fresh vs (update m v (some (complement v)))

abbrev with_vals : List ℕ → Mapping → Mapping
with_vals [] m = m
with_vals (v ∷ vs) m = with_vals vs (update m v (some (complement v)))

abbrev There : List ℕ → Mapping → Type 0
There [] m = Unit
There (v ∷ vs) m = (v < word) × (m v ≡ some (complement v)) × There vs m

abbrev Removable : List ℕ → Mapping → Type 0
Removable [] m = Unit
Removable (v ∷ vs) m = (v < word) × (m v ≡ some (complement v)) × Removable vs (update m v none)

abbrev budget : List ℕ → ℕ → ℕ
budget [] b = b
budget (v ∷ vs) b = suc (budget vs b)

module _ (x : Hm) (o : Obeys x) where
  insert_vals-Ends :
      (vs : List ℕ) (b : ℕ) (c : x.State) (m : Mapping)
      → Fresh vs m
      → o.Holds (budget vs b) c m
      → Ends (insert_vals x vs c) (λ s. o.Holds b s (with_vals vs m))
  unfolding insert_vals
  insert_vals-Ends [] b c m fresh h = (c, refl, h)
  insert_vals-Ends (v ∷ vs) b c m fresh h =
      let m1 = update m v (some (complement v)) in
      let (c1, e1, h1) = insert-Ends x o (budget vs b) c m v fresh.0 (complement v) h fresh.1 in
      let (s, e, h2) = insert_vals-Ends vs b c1 m1 fresh.2 h1 in (s, rw e1 e, h2)

  check_vals-same :
      (vs : List ℕ) (b : ℕ) (c : x.State) (m : Mapping)
      → There vs m
      → o.Holds b c m
      → check_vals x vs c ≡ some c
  unfolding check_vals
  check_vals-same [] b c m there h = refl
  check_vals-same (v ∷ vs) b c m there h =
      rw (check_get-same x o b c m v there.0 (complement v) h (ap value_or_null there.1))
        (check_vals-same vs b c m there.2 h)

  remove_vals-Ends :
      (vs : List ℕ) (b : ℕ) (c : x.State) (m : Mapping)
      → Removable vs m
      → o.Holds (budget vs b) c m
      → Ends (remove_vals x vs c) (λ s. Unit)
  unfolding remove_vals
  remove_vals-Ends [] b c m there h = (c, refl, tt)
  remove_vals-Ends (v ∷ vs) b c m there h =
      let (c1, e1, h1) =
        check_remove-Ends x o (budget vs b) c m v there.0 (complement v) h there.1 in
      let (s, e, u) = remove_vals-Ends vs b c1 (update m v none) there.2 h1 in (s, rw e1 e, tt)

  -- On an index that obeys the laws, with memory for 14 calls, every CHECK of
  -- test_ffffffff_and_friends holds.
  pub test_ffffffff_and_friends-Completes :
      (self : ℕ) (memory : Supply)
      → 14 * o.cost ≤ successes memory
      → Completes (test_ffffffff_and_friends x self memory)
  unfolding test_ffffffff_and_friends
  test_ffffffff_and_friends-Completes self memory enough =
      let start = x.hm_new self memory in
      let m1 = with_vals ffffffff_vals empty in
      let fresh : Fresh ffffffff_vals empty = (
        omega arith,
        refl,
        (
          omega arith,
          refl,
          (
            omega arith,
            refl,
            (omega arith, refl, (omega arith, refl, (omega arith, refl, (omega arith, refl, tt)))),
          ),
        ),
      ) in
      let there : There ffffffff_vals m1 = (
        omega arith,
        refl,
        (
          omega arith,
          refl,
          (
            omega arith,
            refl,
            (omega arith, refl, (omega arith, refl, (omega arith, refl, (omega arith, refl, tt)))),
          ),
        ),
      ) in
      let removable : Removable ffffffff_vals m1 = (
        omega arith,
        refl,
        (
          omega arith,
          refl,
          (
            omega arith,
            refl,
            (omega arith, refl, (omega arith, refl, (omega arith, refl, (omega arith, refl, tt)))),
          ),
        ),
      ) in
      let (c1, e1, h1) =
        insert_vals-Ends ffffffff_vals 7 start empty fresh
          (o.new 14 self memory enough (omega arith)) in
      let (c2, e2, u) = remove_vals-Ends ffffffff_vals 0 c1 m1 removable h1 in
      (x.hm_delete c2, rw (e1, check_vals-same ffffffff_vals 7 c1 m1 there h1, e2))

-- the keys of test_le_basic
abbrev basic : Mapping
basic =
    update
      (update
        (update
          (update
            (update
              (update
                (update (update (update (update empty 1 (some 1)) 2 (some 2)) 3 (some 3)) 0
                  (some 0))
                4 (some 4))
              0xf (some 0xf))
            0xe (some 0xe))
          0x11 (some 0x11))
        0x12 (some 0x12))
      0x20 (some 0x20)

basic-NullAtZero : NullAtZero basic
basic-NullAtZero k v e z = ground arith

basic-floor :
    (key k : ℕ)
    → basic k ≡ some k
    → k ≤ key
    → ((j : ℕ) → k < j → j ≤ key → basic j ≡ none)
    → (w : ℕ) → MapFloor basic key w
    → w ≡ k
basic-floor key k e low above = MapFloor-of basic key k k e low above

module _ (x : Hm) (o : Obeys x) (f : ObeysFind x o) where
  found :
      (key k : ℕ) (c : x.State)
      → o.Holds 0 c basic
      → key < word
      → ((w : ℕ) → MapFloor basic key w → w ≡ k)
      → check_find_le x key k c ≡ some c
  found key k c h fits same = check_find_le-same x o 0 c basic key fits f k h basic-NullAtZero same

  -- On an index that obeys the laws and those of find_le, with memory for ten insertions, every
  -- CHECK of test_le_basic holds.
  pub test_le_basic-Completes :
      (self : ℕ) (memory : Supply)
      → 10 * o.cost ≤ successes memory
      → Completes (test_le_basic x self memory)
  unfolding test_le_basic
  test_le_basic-Completes self memory enough =
      let c0 = x.hm_new self memory in
      let h0 = o.new 10 self memory enough (omega arith) in
      let (c1, e1, h1) = insert-Ends x o 9 c0 empty 1 (omega arith) 1 h0 refl in
      let m1 = update empty 1 (some 1) in
      let (c2, e2, h2) = insert-Ends x o 8 c1 m1 2 (omega arith) 2 h1 refl in
      let m2 = update m1 2 (some 2) in
      let (c3, e3, h3) = insert-Ends x o 7 c2 m2 3 (omega arith) 3 h2 refl in
      let m3 = update m2 3 (some 3) in
      let (c4, e4, h4) = insert-Ends x o 6 c3 m3 0 (omega arith) 0 h3 refl in
      let m4 = update m3 0 (some 0) in
      let (c5, e5, h5) = insert-Ends x o 5 c4 m4 4 (omega arith) 4 h4 refl in
      let m5 = update m4 4 (some 4) in
      let (c6, e6, h6) = insert-Ends x o 4 c5 m5 0xf (omega arith) 0xf h5 refl in
      let m6 = update m5 0xf (some 0xf) in
      let (c7, e7, h7) = insert-Ends x o 3 c6 m6 0xe (omega arith) 0xe h6 refl in
      let m7 = update m6 0xe (some 0xe) in
      let (c8, e8, h8) = insert-Ends x o 2 c7 m7 0x11 (omega arith) 0x11 h7 refl in
      let m8 = update m7 0x11 (some 0x11) in
      let (c9, e9, h9) = insert-Ends x o 1 c8 m8 0x12 (omega arith) 0x12 h8 refl in
      let m9 = update m8 0x12 (some 0x12) in
      let (c10, e10, h10) = insert-Ends x o 0 c9 m9 0x20 (omega arith) 0x20 h9 refl in
      let m10 = update m9 0x20 (some 0x20) in
      (
        x.hm_delete c10,
        rw (e1, e2, e3, e4, e5, e6, e7, e8, e9, e10)
            (rw
              (
                check_get-same x o 0 c10 basic 122 (omega arith) 0 h10 refl,
                check_get-same x o 0 c10 basic 1 (omega arith) 1 h10 refl,
                check_get-same x o 0 c10 basic 2 (omega arith) 2 h10 refl,
                check_get-same x o 0 c10 basic 3 (omega arith) 3 h10 refl,
                check_get-same x o 0 c10 basic 4 (omega arith) 4 h10 refl,
                check_get-same x o 0 c10 basic 5 (omega arith) 0 h10 refl,
                check_get-same x o 0 c10 basic 0x11 (omega arith) 0x11 h10 refl,
                check_get-same x o 0 c10 basic 0x12 (omega arith) 0x12 h10 refl,
              )
              (rw (
                found 1 1 c10 h10 (omega arith)
                    (basic-floor 1 1 refl (omega arith) (λ j p q. ground arith)),
                found 2 2 c10 h10 (omega arith)
                    (basic-floor 2 2 refl (omega arith) (λ j p q. ground arith)),
                found 5 4 c10 h10 (omega arith)
                    (basic-floor 5 4 refl (omega arith) (λ j p q. ground arith)),
                found 6 4 c10 h10 (omega arith)
                    (basic-floor 6 4 refl (omega arith) (λ j p q. ground arith)),
                found 0x11 0x11 c10 h10 (omega arith)
                    (basic-floor 0x11 0x11 refl (omega arith) (λ j p q. ground arith)),
                found 0x15 0x12 c10 h10 (omega arith)
                    (basic-floor 0x15 0x12 refl (omega arith) (λ j p q. ground arith)),
                found 0xfffffff 0x20 c10 h10 (omega arith)
                    (basic-floor 0xfffffff 0x20 refl (omega arith) (λ j p q. ground arith)),
              ))),
      )
