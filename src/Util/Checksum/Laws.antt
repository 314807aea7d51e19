-- ===== src/Util/Checksum/Laws.antt =====
-- The checksums of util.c against each other: inserted and checked, in parts, and both functions.
use mathlib.Core.Path.{subst}
use ptok.Base.{
  ℕ, zero, suc, ◌+◌, ◌/◌, ◌%◌, ◌≤◌, ◌<◌, ◌≡◌, ◌≢◌, refl, sym, ap, ◌∙◌, arith, ◌||◌, true, false,
  List, [], ◌∷◌, ◌++◌, ◌==◌, ==_iff, ==_ne, leb, Bool-cases, inl, inr,
}
use ptok.Util.Checksum.{
  half, join_halves, fletcher, length, take, word_at, write_at, checksum_of, util_checksum,
  fletcher_seq, util_checksum_seq,
}

-- two ranges that agree but for the two words of the checksum
abbrev Alike : (p i : ℕ) → List ℕ → List ℕ → Type 0
Alike p i [] [] = Unit
Alike p i [] (y ∷ l') = ⊥
Alike p i (x ∷ l) [] = ⊥
Alike p i (x ∷ l) (y ∷ l') = (i ≢ p → i ≢ p + 1 → x ≡ y) × Alike p (i + 1) l l'

-- where the walk goes on as it should, the loop has not come to the second word of the checksum
passes :
    (p skip i : ℕ) → (i == p || leb skip i) ≡ false → (i ≡ p + 1 → skip ≤ i) → (i ≢ p) × (i ≢ p + 1)
passes p skip i e ok = ground arith

jumps :
    (p skip i : ℕ)
    → (i == p || leb skip i) ≡ true
    → (i ≡ p + 1 → skip ≤ i)
    → i + 2 ≡ p + 1
    → skip ≤ i + 2
jumps p skip i e ok q = ground arith

fletcher-Alike :
    (p skip i lo hi : ℕ) (l l' : List ℕ)
    → (i ≡ p + 1 → skip ≤ i)
    → Alike p i l l'
    → fletcher p skip i lo hi l ≡ fletcher p skip i lo hi l'
unfolding fletcher
fletcher-Alike p skip i lo hi [] [] ok same = refl
fletcher-Alike p skip i lo hi [] (y ∷ l') ok same = absurd same
fletcher-Alike p skip i lo hi (x ∷ l) [] ok same = absurd same
fletcher-Alike p skip i lo hi (x ∷ []) (y ∷ y2 ∷ l') ok same = absurd same.1
fletcher-Alike p skip i lo hi (x ∷ x2 ∷ l) (y ∷ []) ok same = absurd same.1
fletcher-Alike p skip i lo hi (x ∷ []) (y ∷ []) ok same = elim (Bool-cases (i == p || leb skip i)) [
  | inl e ↦ rw e
  | inr e ↦
      let (ne, ne2) = passes p skip i e ok in
      rw e (ap (λ z. join_halves ((hi + (lo + z) % half) % half) ((lo + z) % half)) (same.0 ne ne2))
]
fletcher-Alike p skip i lo hi (x ∷ x2 ∷ l) (y ∷ y2 ∷ l') ok same =
    elim (Bool-cases (i == p || leb skip i)) [
      | inl e ↦
          let two : i + 1 + 1 ≡ i + 2 = omega arith in
          rw e (
            fletcher-Alike p skip (i + 2) lo ((hi + lo + lo) % half) l l' (jumps p skip i e ok)
              (subst (λ j. Alike p j l l') two same.1.1))
      | inr e ↦
          let (ne, ne2) = passes p skip i e ok in
          rw (e, same.0 ne ne2)
            (fletcher-Alike p skip (i + 1) ((lo + y) % half) ((hi + (lo + y) % half) % half)
              (x2 ∷ l) (y2 ∷ l') (λ q. absurd (ne (omega arith))) same.1)
    ]

halves_lem :
    (hi lo : ℕ)
    → hi < half
    → lo < half
    → (join_halves hi lo % half ≡ lo) × (join_halves hi lo / half % half ≡ hi)
halves_lem hi lo p q = (omega arith, omega arith)

fletcher_seq-append :
    (lo hi : ℕ) (l l' : List ℕ)
    → lo < half
    → hi < half
    → fletcher_seq lo hi (l ++ l') ≡ util_checksum_seq l' (fletcher_seq lo hi l)
unfolding fletcher_seq util_checksum_seq
fletcher_seq-append lo hi [] l' p q = rw ((halves_lem hi lo q p).0, (halves_lem hi lo q p).1)
fletcher_seq-append lo hi (x ∷ l) l' p q =
    fletcher_seq-append ((lo + x) % half) ((hi + (lo + x) % half) % half) l l' (omega arith)
      (omega arith)

-- `util_checksum_seq` of a range in two parts is that of the second part from the checksum of
-- the first.
pub util_checksum_seq-append :
    (l l' : List ℕ) (csum : ℕ)
    → util_checksum_seq (l ++ l') csum ≡ util_checksum_seq l' (util_checksum_seq l csum)
unfolding util_checksum_seq
util_checksum_seq-append l l' csum =
    fletcher_seq-append (csum % half) (csum / half % half) l l' (omega arith) (omega arith)

Alike-refl : (p i : ℕ) (l : List ℕ) → Alike p i l l
Alike-refl p i [] = tt
Alike-refl p i (x ∷ l) = (λ ne ne2. refl, Alike-refl p (i + 1) l)

Alike-write_at :
    (p i d w : ℕ) (l l' : List ℕ)
    → (i + d ≢ p → i + d ≢ p + 1 → ⊥)
    → Alike p i l l'
    → Alike p i l (write_at d w l')
unfolding write_at
Alike-write_at p i d w [] [] at same = tt
Alike-write_at p i d w [] (y ∷ l') at same = absurd same
Alike-write_at p i d w (x ∷ l) [] at same = absurd same
Alike-write_at p i zero w (x ∷ l) (y ∷ l') at same =
    (λ ne ne2. absurd (at (λ e. ne (omega arith)) (λ e. ne2 (omega arith))), same.1)
Alike-write_at p i (suc d) w (x ∷ l) (y ∷ l') at same = (
  same.0,
  Alike-write_at p (i + 1) d w l l' (λ ne ne2. at (λ e. ne (omega arith)) (λ e. ne2 (omega arith)))
      same.1,
)

length-write_at : (d w : ℕ) (l : List ℕ) → length (write_at d w l) ≡ length l
unfolding length write_at
length-write_at d w [] = refl
length-write_at zero w (x ∷ l) = refl
length-write_at (suc d) w (x ∷ l) = ap suc (length-write_at d w l)

word_at-write_at : (d w : ℕ) (l : List ℕ) → d < length l → word_at d (write_at d w l) ≡ w
unfolding length write_at word_at
word_at-write_at d w [] h = elim h [ ]
word_at-write_at zero w (x ∷ l) h = refl
word_at-write_at (suc d) w (x ∷ l) h = word_at-write_at d w l (omega arith)

word_at-write_at_ne : (d e w : ℕ) (l : List ℕ) → d ≢ e → word_at d (write_at e w l) ≡ word_at d l
unfolding write_at word_at
word_at-write_at_ne d e w [] ne = refl
word_at-write_at_ne zero zero w (x ∷ l) ne = absurd (ne refl)
word_at-write_at_ne zero (suc e) w (x ∷ l) ne = refl
word_at-write_at_ne (suc d) zero w (x ∷ l) ne = refl
word_at-write_at_ne (suc d) (suc e) w (x ∷ l) ne = word_at-write_at_ne d e w l (λ q. ne (ap suc q))

-- the checksum does not depend on what stands in its own place
checksum_of-written :
    (l : List ℕ) (p skip a b : ℕ)
    → checksum_of (write_at p a (write_at (p + 1) b l)) p skip ≡ checksum_of l p skip
unfolding checksum_of
checksum_of-written l p skip a b =
    let same =
      Alike-write_at p 0 p a l (write_at (p + 1) b l) (λ ne ne2. ne (omega arith))
        (Alike-write_at p 0 (p + 1) b l l (λ ne ne2. ne2 (omega arith)) (Alike-refl p 0 l)) in
    rw (length-write_at p a (write_at (p + 1) b l), length-write_at (p + 1) b l)
      (sym (
        fletcher-Alike p _ 0 0 0 l (write_at p a (write_at (p + 1) b l)) (λ e. absurd (omega arith))
          same))

take-write_at : (n i w : ℕ) (l : List ℕ) → take n (write_at i w l) ≡ write_at i w (take n l)
unfolding take write_at
take-write_at zero i w l = refl
take-write_at (suc n) i w [] = refl
take-write_at (suc n) zero w (x ∷ l) = refl
take-write_at (suc n) (suc i) w (x ∷ l) = ap (λ t. x ∷ t) (take-write_at n i w l)

-- If the checksum has its place in memory, in the range, after it or across its end,
-- `util_checksum` that checks what `util_checksum` has inserted returns true, whatever `skip_off`
-- is.
pub util_checksum-inserted :
    (memory : List ℕ) (len csump skip_off : ℕ)
    → csump + 1 < length memory
    → (util_checksum
        (util_checksum memory len csump true skip_off).memory
        len
        csump
        false
        skip_off).result
      ≡ true
unfolding util_checksum
util_checksum-inserted l len p skip h =
    let c = checksum_of (take len l) p skip in
    let l1 = write_at (p + 1) (c / half) l in
    let l2 = write_at p (c % half) l1 in
    let upper : word_at (p + 1) l2 ≡ c / half =
      word_at-write_at_ne (p + 1) p (c % half) l1 (λ e. omega arith)
      ∙ word_at-write_at (p + 1) (c / half) l h in
    let lower : word_at p l2 ≡ c % half =
      word_at-write_at p (c % half) l1 (omega (arith, length-write_at (p + 1) (c / half) l)) in
    let same : checksum_of (take len l2) p skip ≡ c =
      ap (λ t. checksum_of t p skip)
        (take-write_at len p (c % half) l1
          ∙ ap (write_at p (c % half)) (take-write_at len (p + 1) (c / half) l))
      ∙ checksum_of-written (take len l) p skip (c % half) (c / half) in
    (==_iff _ _).1 (rw (upper, lower, same) (omega arith))

before : (p skip i n : ℕ) → i + suc n ≤ p → i + suc n ≤ skip → (i == p || leb skip i) ≡ false
before p skip i n h k = rw (==_ne i p (λ e. omega arith)) (ground arith)

fletcher-seq :
    (p skip i lo hi : ℕ) (l : List ℕ)
    → i + length l ≤ p
    → i + length l ≤ skip
    → fletcher p skip i lo hi l ≡ fletcher_seq lo hi l
unfolding fletcher fletcher_seq length
fletcher-seq p skip i lo hi [] h k = refl
fletcher-seq p skip i lo hi (x ∷ []) h k = rw (before p skip i 0 h k)
fletcher-seq p skip i lo hi (x ∷ y ∷ l) h k = rw (before p skip i (length (y ∷ l)) h k) (
    fletcher-seq p skip (i + 1) ((lo + x) % half) ((hi + (lo + x) % half) % half) (y ∷ l)
      (omega arith) (omega arith))

-- Where the checksum is kept outside the range and nothing is skipped, `util_checksum` computes
-- what `util_checksum_seq` computes from 0.
pub checksum_of-seq :
    (l : List ℕ) (csump : ℕ) → length l ≤ csump → checksum_of l csump 0 ≡ util_checksum_seq l 0
unfolding checksum_of util_checksum_seq
checksum_of-seq l p h = fletcher-seq p (length l) 0 0 0 l (omega arith) (omega arith)
