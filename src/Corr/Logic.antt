-- ===== src/Corr/Logic.antt =====
-- What the steps of the tests do on an index that obeys the laws.
use ptok.Base.{ℕ, suc, ◌<◌, ◌≡◌, Option, none, some, ==_refl, ==_iff}
use ptok.Word.{word}
use ptok.Mapping.{Mapping, update, value_or_null, MapFloor, NullAtZero}
use ptok.Hm.{Hm}
use ptok.Hm.Laws.{Obeys, ObeysFind}
use ptok.Corr.{check, insert, check_get, check_remove, check_find_le}

-- It comes to its end in a state with the property.
abbrev pub Ends : {S : Type 0} → Option S → (S → Type 0) → Type 0
Ends {S} r P = (s : S) × (r ≡ some s) × P s

check-same :
    {S : Type 0} (found expected : ℕ) (s : S) → found ≡ expected → check found expected s ≡ some s
check-same found expected s e = rw ((==_iff found expected).1 e)

module _ (x : Hm) (o : Obeys x) (b : ℕ) (c : x.State) (m : Mapping) (key : ℕ)
    (fits : key < word) where
  pub insert-Ends :
      (v : ℕ)
      → o.Holds (suc b) c m
      → m key ≡ none
      → Ends (insert x key v c) (λ s. o.Holds b s (update m key (some v)))
  unfolding insert
  insert-Ends v h fresh = let (s, e, h') = o.insert b c m key v h fits fresh in (s, rw e, h')

  pub check_get-same :
      (v : ℕ) → o.Holds b c m → value_or_null (m key) ≡ v → check_get x key v c ≡ some c
  unfolding check_get
  check_get-same v h e = rw (o.get b c m key h fits) (check-same _ v c e)

  pub check_remove-Ends :
      (v : ℕ)
      → o.Holds (suc b) c m
      → m key ≡ some v
      → Ends (check_remove x key v c) (λ s. o.Holds b s (update m key none))
  unfolding check_remove
  check_remove-Ends v h there =
      let (s, e, h') = o.remove b c m key v h fits there in (s, rw (e, ==_refl v), h')

  module _ (f : ObeysFind x o) where
    pub insert_again-Ends :
        (v w : ℕ)
        → o.Holds (suc b) c m
        → m key ≡ some w
        → Ends (insert x key v c) (λ s. o.Holds b s m)
    unfolding insert
    insert_again-Ends v w h there =
        let (s, e, h') = f.again b c m key v w h fits there in (s, rw e, h')

    pub check_find_le-same :
        (v : ℕ)
        → o.Holds b c m
        → NullAtZero m
        → ((w : ℕ) → MapFloor m key w → w ≡ v)
        → check_find_le x key v c ≡ some c
    unfolding check_find_le
    check_find_le-same v h nulls same =
        let (w, e, floor) = f.find_le b c m key h fits nulls in
        rw e (check-same w v c (same w floor))
