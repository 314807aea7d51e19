-- ===== src/Tlog/Laws.antt =====
-- What the log keeps.
use mathlib.Core.List.{append-nil}
use ptok.Base.{
  ℕ, zero, suc, ◌+◌, ◌%◌, ◌<◌, ◌≤◌, ◌≡◌, refl, sym, ap, ◌∙◌, arith, List, [], ◌∷◌, ◌++◌, Bool-cases,
  true, inl, inr, ltb, leb, ltb-false, some,
}
use mathlib.Core.Path.{subst}
use ptok.Base.Arrays.{length, store, store_self, store_ne}
use ptok.Word.{word}
use ptok.Tlog.{
  tlog_size, Entry, Log, tlog_init, store_entry, tlog, first_entries, read_entries, tlog_save,
  tlog_all, tlog_run,
}

abbrev pub take {ℓ} : {A : Type ℓ} → ℕ → List A → List A
take zero xs = []
take (suc n) [] = []
take (suc n) (x ∷ xs) = x ∷ take n xs

take-all : (n : ℕ) (es : List Entry) → length es ≤ n → take n es ≡ es
take-all zero [] h = refl
take-all zero (e ∷ es) h = absurd (omega (arith, h))
take-all (suc n) [] h = refl
take-all (suc n) (e ∷ es) h = ap (λ l. e ∷ l) (take-all n es (omega (arith, h)))

take-append :
    (n : ℕ) (es : List Entry) (e : Entry) → n ≤ length es → take n (es ++ e ∷ []) ≡ take n es
take-append zero es e h = refl
take-append (suc n) [] e h = absurd (omega (arith, h))
take-append (suc n) (x ∷ es) e h = ap (λ l. x ∷ l) (take-append n es e (omega (arith, h)))

length-append : (es : List Entry) (e : Entry) → length (es ++ e ∷ []) ≡ length es + 1
length-append [] e = refl
length-append (x ∷ es) e = ap suc (length-append es e) ∙ omega arith

append_assoc_one :
    (es : List Entry) (e : Entry) (fs : List Entry) → (es ++ e ∷ []) ++ fs ≡ es ++ e ∷ fs
append_assoc_one [] e fs = refl
append_assoc_one (x ∷ es) e fs = ap (λ l. x ∷ l) (append_assoc_one es e fs)

-- an element further on does not matter
first_entries-store :
    (n o : ℕ) (f : ℕ → Entry) (e : Entry)
    → n ≤ o
    → first_entries n (store f o e) ≡ first_entries n f
unfolding first_entries
first_entries-store zero o f e h = refl
first_entries-store (suc n) o f e h =
    rw (first_entries-store n o f e (omega arith), store_ne f o n e (λ x. omega (arith, h, x)))

first_entries-suc :
    (n : ℕ) (f : ℕ → Entry) → first_entries (n + 1) f ≡ first_entries n f ++ f n ∷ []
unfolding first_entries
first_entries-suc n f = let e : n + 1 ≡ suc n = omega arith in ap (λ k. first_entries k f) e

first_entries-zero : (f : ℕ → Entry) → first_entries 0 f ≡ []
unfolding first_entries
first_entries-zero f = refl

read_entries_lem :
    (n : ℕ) (f : ℕ → Entry) → n ≤ tlog_size → read_entries n f ≡ some (first_entries n f)
unfolding read_entries
read_entries_lem n f h = elim (Bool-cases (leb n tlog_size)) [
  | inl e ↦ rw e
  | inr e ↦ absurd (ground arith)
]

store_entry_lem :
    (f : ℕ → Entry) (o : ℕ) (e : Entry)
    → ltb o tlog_size ≡ true
    → store_entry f o e ≡ some (store f o e)
unfolding store_entry
store_entry_lem f o e h = rw h

tlog_save-low : (l : Log) → l.i ≤ tlog_size → tlog_save l ≡ some (first_entries l.i l.tlog_data)
unfolding tlog_save
tlog_save-low l h = elim (Bool-cases (ltb tlog_size l.i)) [
  | inl e ↦ absurd (ground arith)
  | inr e ↦ rw e (read_entries_lem l.i l.tlog_data h)
]

tlog_save-high :
    (l : Log) → tlog_size ≤ l.i → tlog_save l ≡ some (first_entries tlog_size l.tlog_data)
unfolding tlog_save
tlog_save-high l h = elim (Bool-cases (ltb tlog_size l.i)) [
  | inl e ↦ rw e (read_entries_lem tlog_size l.tlog_data (omega arith))
  | inr e ↦
      let same : l.i ≡ tlog_size = omega (arith, h, ltb-false tlog_size l.i e) in
      rw e (
        read_entries_lem l.i l.tlog_data (omega (arith, same))
        ∙ ap (λ n. some (first_entries n l.tlog_data)) same)
]

lt_of_ltb : (a b : ℕ) → ltb a b ≡ true → a < b
lt_of_ltb a b e = ground arith

-- the records logged so far: all of them are counted, and the array begins with them
record Logged (es : List Entry) (l : Log) : Type 0 where
  counted : l.i ≡ length es
  low : l.i ≤ tlog_size → first_entries l.i l.tlog_data ≡ es
  high : tlog_size ≤ l.i → first_entries tlog_size l.tlog_data ≡ take tlog_size es

module _ (es : List Entry) (l : Log) (e : Entry) (h : length es + 1 < word) (g : Logged es l) where
  counted : (l.i + 1) % word ≡ length (es ++ e ∷ [])
  counted = omega (arith, h, g.counted, length-append es e)

  next : (l.i + 1) % word ≡ l.i + 1
  next = omega (arith, h, g.counted)

  stored : ℕ → Entry
  stored = store l.tlog_data l.i e

  -- the array with one record more
  stored-first : l.i < tlog_size → first_entries ((l.i + 1) % word) stored ≡ es ++ e ∷ []
  unfolding stored
  stored-first room =
      ap (λ n. first_entries n stored) next
      ∙ first_entries-suc l.i stored
      ∙ ap (λ x. x ++ stored l.i ∷ [])
          (first_entries-store l.i l.i l.tlog_data e (omega arith) ∙ g.low (omega (arith, room)))
      ∙ ap (λ x. es ++ x ∷ []) (store_self l.tlog_data l.i e)

  low-Logged :
      l.i < tlog_size
      → Logged (es ++ e ∷ []) (record l { i = (l.i + 1) % word; tlog_data = stored })
  low-Logged room = record {
    counted = counted;
    low = λ _. stored-first room;
    high = λ full.
        let last : (l.i + 1) % word ≡ tlog_size = omega (arith, next, room, full) in
        ap (λ n. first_entries n stored) (sym last)
        ∙ stored-first room
        ∙ sym (take-all tlog_size (es ++ e ∷ []) (omega (arith, counted, last)));
  }

  high-Logged : tlog_size ≤ l.i → Logged (es ++ e ∷ []) (record l { i = (l.i + 1) % word })
  high-Logged full = record {
    counted = counted;
    low = λ room. absurd (omega (arith, room, full, next));
    high = λ _. g.high full ∙ sym (take-append tlog_size es e (omega (arith, full, g.counted)));
  }

  tlog-Logged : (l1 : Log) × (tlog l e ≡ some l1) × Logged (es ++ e ∷ []) l1
  unfolding tlog stored
  tlog-Logged = elim (Bool-cases (ltb l.i tlog_size)) [
    | inl room ↦ (
      record l { i = (l.i + 1) % word; tlog_data = stored },
      rw (room, store_entry_lem l.tlog_data l.i e room) refl,
      low-Logged (lt_of_ltb l.i tlog_size room),
    )
    | inr full ↦ (
      record l { i = (l.i + 1) % word },
      rw full refl,
      high-Logged (ltb-false l.i tlog_size full),
    )
  ]

tlog_all-Logged :
    (fs es : List Entry) (l : Log)
    → length es + length fs < word
    → Logged es l
    → (l1 : Log) × (tlog_all l fs ≡ some l1) × Logged (es ++ fs) l1
unfolding tlog_all
tlog_all-Logged [] es l h g = (l, refl, subst (λ x. Logged x l) (sym (append-nil es)) g)
tlog_all-Logged (f ∷ fs) es l h g =
    let (l1, e, g1) = tlog-Logged es l f (omega (arith, h)) g in
    let (l2, e2, g2) =
      tlog_all-Logged fs (es ++ f ∷ []) l1 (omega (arith, h, length-append es f)) g1 in
    (l2, rw (e, tlog_all) e2, subst (λ x. Logged x l2) (append_assoc_one es f fs) g2)

start-Logged : (l : Log) → Logged [] (tlog_init l)
start-Logged l = record {
  counted = refl;
  low = λ _. first_entries-zero l.tlog_data;
  high = λ full. absurd (omega (arith, full));
}

Logged-tlog_save :
    (es : List Entry) (l : Log) → Logged es l → tlog_save l ≡ some (take tlog_size es)
Logged-tlog_save es l g = elim (Bool-cases (ltb l.i tlog_size)) [
  | inl e ↦
      let room = lt_of_ltb l.i tlog_size e in
      tlog_save-low l (omega (arith, room))
      ∙ ap some (
          g.low (omega (arith, room))
          ∙ sym (take-all tlog_size es (omega (arith, room, g.counted))))
  | inr e ↦ let full = ltb-false l.i tlog_size e in tlog_save-high l full ∙ ap some (g.high full)
]

-- After fewer than 2 ^ 64 calls of tlog from tlog_init, none of which stores outside the array,
-- tlog_save does not read outside it either, and writes the first TLOG_SIZE of the logged records,
-- in order, or all of them if there are fewer.
pub tlog_run-take :
    (l : Log) (es : List Entry) → length es < word → tlog_run l es ≡ some (take tlog_size es)
unfolding tlog_run
tlog_run-take l es h =
    let (l1, e, g) = tlog_all-Logged es [] (tlog_init l) (omega (arith, h)) (start-Logged l) in
    rw (e, tlog_run) (Logged-tlog_save es l1 g)
