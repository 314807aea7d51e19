-- ===== src/Corr/Loops.antt =====
-- The tests that loop over keys.
use ptok.Base.{
  ℕ, zero, suc, ◌+◌, ◌*◌, ◌<◌, ◌≤◌, ◌≡◌, refl, sym, ap, arith, none, some, List, [], ◌∷◌, ==_iff,
  ==_ne, ==_refl, eq-cases, inl, inr,
}
use mathlib.Core.Path.{subst}
use ptok.Base.Arrays.{length}
use ptok.Base.Arrays.{successes}
use ptok.Word.{word}
use ptok.Mapping.{Mapping, empty, update, value_or_null}
use ptok.Hm.{Supply, Hm}
use ptok.Hm.Laws.{Obeys}
use ptok.Corr.{
  insert, check_get, check_remove, insert_all, check_all, insert_delete, insert_bulk, delete_bulk,
  insert_delete_each, test_1to1000, test_insert_delete1_m, test_insert_bulk_delete1_m,
  test_insert_delete_random,
}
use ptok.Corr.Logic.{Ends, insert-Ends, check_get-same, check_remove-Ends}
use ptok.Corr.Small.{Completes}

-- the entries of the keys below `i` are the keys, and there are no others
abbrev Below : ℕ → Mapping → Type 0
Below i m = (k : ℕ) → (k < i → m k ≡ some k) × (i ≤ k → m k ≡ none)

Below-update : (i : ℕ) (m : Mapping) → Below i m → Below (suc i) (update m i (some i))
Below-update i m h k = elim (eq-cases k i) [
  | inl e ↦ rw ((==_iff k i).1 e) (λ p. ap some (sym e), λ p. absurd (omega (arith, e, p)))
  | inr ne ↦ rw (==_ne k i ne) (λ p. (h k).0 (omega arith), λ p. (h k).1 (omega (arith, p)))
]

-- the entries of the keys from `i` on, up to `top`, are the keys
abbrev From : (i top : ℕ) → Mapping → Type 0
From i top m = (k : ℕ) → i ≤ k → k < top → m k ≡ some k

From-drop : (i top : ℕ) (m : Mapping) → From i top m → From (suc i) top (update m i none)
From-drop i top m h k p q = rw (==_ne k i (λ e. omega (arith, e, p))) (h k (omega arith) q)

abbrev pub AllWords : List ℕ → Type 0
AllWords [] = Unit
AllWords (v ∷ vs) = (v < word) × AllWords vs

module _ (x : Hm) (o : Obeys x) where
  -- the budget of one more round
  one_more :
      (n : ℕ) (c : x.State) (m : Mapping)
      → o.Holds (2 * suc n) c m
      → o.Holds (suc (suc (2 * n))) c m
  one_more n c m h =
      let e : 2 * suc n ≡ suc (suc (2 * n)) = omega arith in subst (λ b. o.Holds b c m) e h

  -- a key is inserted and removed
  record Round (b key : ℕ) (c : x.State) : Type 0 where
    inserted : x.State
    removed : x.State
    mapping : Mapping
    insertion : insert x key key c ≡ some inserted
    get_same : check_get x key key inserted ≡ some inserted
    removal : check_remove x key key inserted ≡ some removed
    get_null : check_get x key 0 removed ≡ some removed
    holds : o.Holds b removed mapping
    gone : (k : ℕ) → mapping k ≡ none

  round :
      (b key : ℕ) (c : x.State) (m : Mapping)
      → key < word
      → o.Holds (suc (suc b)) c m
      → ((k : ℕ) → m k ≡ none)
      → Round b key c
  round b key c m fits h gone =
      let m1 = update m key (some key) in
      let there : m1 key ≡ some key = rw (==_refl key) in
      let away : (k : ℕ) → update m1 key none k ≡ none = λ k. elim (eq-cases k key) [
        | inl e ↦ rw ((==_iff k key).1 e)
        | inr ne ↦ rw (==_ne k key ne) (gone k)
      ] in
      let (c1, e1, h1) = insert-Ends x o (suc b) c m key fits key h (gone key) in
      let (c2, e2, h2) = check_remove-Ends x o b c1 m1 key fits key h1 there in
      record {
        inserted = c1;
        removed = c2;
        mapping = update m1 key none;
        insertion = e1;
        get_same = check_get-same x o (suc b) c1 m1 key fits key h1 (ap value_or_null there);
        removal = e2;
        get_null =
            check_get-same x o b c2 (update m1 key none) key fits 0 h2
              (ap value_or_null (away key));
        holds = h2;
        gone = away;
      }

  insert_delete-Ends :
      (n i : ℕ) (c : x.State) (m : Mapping)
      → i + n ≤ word
      → o.Holds (2 * n) c m
      → ((k : ℕ) → m k ≡ none)
      → Ends (insert_delete x n i c) (λ s. Unit)
  unfolding insert_delete
  insert_delete-Ends zero i c m fits h gone = (c, refl, tt)
  insert_delete-Ends (suc n) i c m fits h gone =
      let h1 = one_more n c m h in
      let r = round (2 * n) i c m (omega (arith, fits)) h1 gone in
      let before =
        check_get-same x o (suc (suc (2 * n))) c m i (omega (arith, fits)) 0 h1
          (ap value_or_null (gone i)) in
      let (s, e, u) =
        insert_delete-Ends n (suc i) r.removed r.mapping (omega (arith, fits)) r.holds r.gone in
      (s, rw (before, r.insertion, r.get_same, r.removal, r.get_null) e, tt)

  insert_delete_each-Ends :
      (vs : List ℕ) (c : x.State) (m : Mapping)
      → AllWords vs
      → o.Holds (2 * length vs) c m
      → ((k : ℕ) → m k ≡ none)
      → Ends (insert_delete_each x vs c) (λ s. Unit)
  unfolding insert_delete_each
  insert_delete_each-Ends [] c m fits h gone = (c, refl, tt)
  insert_delete_each-Ends (v ∷ vs) c m fits h gone =
      let r = round (2 * length vs) v c m fits.0 (one_more (length vs) c m h) gone in
      let (s, e, u) = insert_delete_each-Ends vs r.removed r.mapping fits.1 r.holds r.gone in
      (s, rw (r.insertion, r.get_same, r.removal, r.get_null) e, tt)

  -- what the insertions leave, with `b` of the budget
  abbrev Filled : (b top : ℕ) → x.State → Type 0
  Filled b top s = (m : Mapping) × o.Holds b s m × Below top m

  insert_all-Ends :
      (n i b : ℕ) (c : x.State) (m : Mapping)
      → i + n ≤ word
      → o.Holds (n + b) c m
      → Below i m
      → Ends (insert_all x n i c) (λ s. Filled b (i + n) s)
  unfolding insert_all
  insert_all-Ends zero i b c m fits h below =
      let e : i + 0 ≡ i = omega arith in
      let left : 0 + b ≡ b = omega arith in
      (c, refl, (m, subst (λ t. o.Holds t c m) left h, subst (λ t. Below t m) (sym e) below))
  insert_all-Ends (suc n) i b c m fits h below =
      let more : suc n + b ≡ suc (n + b) = omega arith in
      let (c1, e1, h1) =
        insert-Ends x o (n + b) c m i (omega (arith, fits)) i (subst (λ t. o.Holds t c m) more h)
          ((below i).1 (omega arith)) in
      let (s, e, filled) =
        insert_all-Ends n (suc i) b c1 (update m i (some i)) (omega (arith, fits)) h1
          (Below-update i m below) in
      let next : suc i + n ≡ i + suc n = omega arith in
      (s, rw e1 e, subst (λ t. Filled b t s) next filled)

  insert_bulk-Ends :
      (n i b : ℕ) (c : x.State) (m : Mapping)
      → i + n ≤ word
      → o.Holds (n + b) c m
      → Below i m
      → Ends (insert_bulk x n i c) (λ s. Filled b (i + n) s)
  unfolding insert_bulk
  insert_bulk-Ends zero i b c m fits h below =
      let e : i + 0 ≡ i = omega arith in
      let left : 0 + b ≡ b = omega arith in
      (c, refl, (m, subst (λ t. o.Holds t c m) left h, subst (λ t. Below t m) (sym e) below))
  insert_bulk-Ends (suc n) i b c m fits h below =
      let more : suc n + b ≡ suc (n + b) = omega arith in
      let key_fits : i < word = omega (arith, fits) in
      let fresh = (below i).1 (omega arith) in
      let m1 = update m i (some i) in
      let (c1, e1, h1) =
        insert-Ends x o (n + b) c m i key_fits i (subst (λ t. o.Holds t c m) more h) fresh in
      let (s, e, filled) =
        insert_bulk-Ends n (suc i) b c1 m1 (omega (arith, fits)) h1 (Below-update i m below) in
      let next : suc i + n ≡ i + suc n = omega arith in
      let there : value_or_null (m1 i) ≡ i = rw (==_refl i) in
      (
        s,
        rw
            (
              check_get-same x o (suc n + b) c m i key_fits 0 h (ap value_or_null fresh),
              e1,
              check_get-same x o (n + b) c1 m1 i key_fits i h1 there,
            )
            e,
        subst (λ t. Filled b t s) next filled,
      )

  check_all-same :
      (n i b : ℕ) (c : x.State) (m : Mapping)
      → i + n ≤ word
      → o.Holds b c m
      → From i (i + n) m
      → check_all x n i c ≡ some c
  unfolding check_all
  check_all-same zero i b c m fits h from = refl
  check_all-same (suc n) i b c m fits h from =
      rw
        (check_get-same x o b c m i (omega (arith, fits)) i h
          (ap value_or_null (from i (omega arith) (omega arith))))
        (check_all-same n (suc i) b c m (omega (arith, fits)) h
          (λ k p q. from k (omega (arith, p)) (omega (arith, q))))

  delete_bulk-Ends :
      (n i : ℕ) (c : x.State) (m : Mapping)
      → i + n ≤ word
      → o.Holds n c m
      → From i (i + n) m
      → Ends (delete_bulk x n i c) (λ s. Unit)
  unfolding delete_bulk
  delete_bulk-Ends zero i c m fits h from = (c, refl, tt)
  delete_bulk-Ends (suc n) i c m fits h from =
      let key_fits : i < word = omega (arith, fits) in
      let there = from i (omega arith) (omega arith) in
      let m1 = update m i none in
      let (c1, e1, h1) = check_remove-Ends x o n c m i key_fits i h there in
      let (s, e, u) =
        delete_bulk-Ends n (suc i) c1 m1 (omega (arith, fits)) h1
          (λ k p q. From-drop i (i + suc n) m from k p (omega (arith, q))) in
      let gone : value_or_null (m1 i) ≡ 0 = rw (==_refl i) in
      (
        s,
        rw
            (
              check_get-same x o (suc n) c m i key_fits i h (ap value_or_null there),
              e1,
              check_get-same x o n c1 m1 i key_fits 0 h1 gone,
            )
            e,
        tt,
      )

-- the smallest key is 0
Below-From : (n : ℕ) (m : Mapping) → Below (0 + n) m → From 0 (0 + n) m
Below-From n m h k p q = (h k).0 q

module _ (x : Hm) (o : Obeys x) (self : ℕ) (memory : Supply) where
  abbrev start : x.State
  start = x.hm_new self memory

  -- On an index that obeys the laws, every CHECK of test_1to1000 holds, for any number of keys in
  -- place of 1000 for which there is memory and that is below 2 ^ 64 - 16.
  pub test_1to1000-Completes :
      (n : ℕ)
      → n * o.cost ≤ successes memory
      → n + 16 < word
      → Completes (test_1to1000 x self memory n)
  unfolding test_1to1000
  test_1to1000-Completes n enough limit =
      let whole : n ≡ n + 0 = omega arith in
      let h = subst (λ t. o.Holds t start empty) whole (o.new n self memory enough limit) in
      let (c1, e1, (m1, h1, below)) =
        insert_all-Ends x o n 0 0 start empty (omega arith) h
          (λ k. (λ p. absurd (omega (arith, p)), λ p. refl)) in
      (
        x.hm_delete c1,
        rw (e1, check_all-same x o n 0 0 c1 m1 (omega arith) h1 (Below-From n m1 below)),
      )

  -- The same of test_insert_delete1M, for any number of keys in place of MAX.
  pub test_insert_delete1_m-Completes :
      (n : ℕ)
      → 2 * n * o.cost ≤ successes memory
      → 2 * n + 16 < word
      → Completes (test_insert_delete1_m x self memory n)
  unfolding test_insert_delete1_m
  test_insert_delete1_m-Completes n enough limit =
      let (c, e, u) =
        insert_delete-Ends x o n 0 start empty (omega arith)
          (o.new (2 * n) self memory enough limit) (λ k. refl) in
      (x.hm_delete c, rw e)

  -- The same of test_insert_bulk_delete1M, for any number of keys in place of MAX.
  pub test_insert_bulk_delete1_m-Completes :
      (n : ℕ)
      → (n + n) * o.cost ≤ successes memory
      → n + n + 16 < word
      → Completes (test_insert_bulk_delete1_m x self memory n)
  unfolding test_insert_bulk_delete1_m
  test_insert_bulk_delete1_m-Completes n enough limit =
      let (c1, e1, (m1, h1, below)) =
        insert_bulk-Ends x o n 0 n start empty (omega arith)
          (o.new (n + n) self memory enough limit)
          (λ k. (λ p. absurd (omega (arith, p)), λ p. refl)) in
      let (c2, e2, u) = delete_bulk-Ends x o n 0 c1 m1 (omega arith) h1 (Below-From n m1 below) in
      (x.hm_delete c2, rw (e1, e2))

  -- The same of test_insert_delete_random, for any 64-bit numbers that rnd64 gives.
  pub test_insert_delete_random-Completes :
      (vs : List ℕ)
      → AllWords vs
      → 2 * length vs * o.cost ≤ successes memory
      → 2 * length vs + 16 < word
      → Completes (test_insert_delete_random x self memory vs)
  unfolding test_insert_delete_random
  test_insert_delete_random-Completes vs fits enough limit =
      let (c, e, u) =
        insert_delete_each-Ends x o vs start empty fits
          (o.new (2 * length vs) self memory enough limit) (λ k. refl) in
      (x.hm_delete c, rw e)
