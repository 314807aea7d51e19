-- ===== src/Critnib/Find/Floor.antt =====
-- `find_le` against the greatest key of the tree that is not above its argument.
use ptok.Base.{
  ℕ, ◌+◌, ◌*◌, ◌/◌, ◌^◌, ◌≤◌, ◌<◌, ◌≡◌, ◌≢◌, refl, sym, ap, ◌↔◌, arith, ◌==◌, ==_iff, Bool-cases,
  eq-cases, inl, inr, ◌⊎◌, Option, none, some, leb, ltb, ltb-false, bit_and, bit_xor, if◌then◌else◌,
}
use mathlib.Core.Path.{subst}
use native.Mathlib.Decide.{dec_lt}
use ptok.Word.{word, shr, complement}
use ptok.Word.Slices.{lt_of_div-pow, bit_xor-above_iff}
use ptok.Critnib.Tree.{Tree, null, leaf, node, slice_index, slnodes, nib_mask}
use ptok.Critnib.Valid.{Holds, IsValid, slice_index_lem, slice_index-lt}
use ptok.Critnib.Find.Rightmost.{
  Last, no_child, last, last_child-Last, Holds-null, NullAtZero, Greatest, left_of, Greatest-left,
  find_successor-Greatest,
}
use ptok.Critnib.Find.{last_child, find_successor, search_left, find_le}

-- What a search for the greatest key up to `key` may return: NULL where every key is above, or
-- the value of the greatest key that is not.
pub data IsFloor (t : Tree) (key : ℕ) : ℕ → Type 0 where
  none_below : ((k w : ℕ) → Holds t k w → key < k) → IsFloor t key 0
  floor :
      (k v : ℕ)
      → Holds t k v
      → k ≤ key
      → ((j w : ℕ) → Holds t j w → j ≤ key → j ≤ k)
      → IsFloor t key v

Greatest-IsFloor :
    (t : Tree) (key v : ℕ) → Greatest t v → ((k w : ℕ) → Holds t k w → k ≤ key) → IsFloor t key v
Greatest-IsFloor t key v g low =
    floor g.key v g.held (low g.key v g.held) (λ j w m q. g.above j w m)

module _ (a path shift : ℕ) (child : ℕ → Tree) (key : ℕ) (in_word : key < word)
    (valid : IsValid (node a path shift child)) where
  abbrev prefix : ℕ
  prefix = path / 2 ^ shift / 16

  abbrev upper : ℕ
  upper = key / 2 ^ shift / 16

  -- the path is below the key exactly if its upper bits are
  side : upper ≢ prefix → (path < key) ↔ (prefix < upper)
  side off = (
    λ lt. elim (dec_lt upper prefix) [
      | yes p ↦ absurd (omega (arith, lt_of_div-pow key path shift (omega arith)))
      | no p ↦ omega arith
    ],
    λ lt. lt_of_div-pow path key shift (omega arith),
  )

  slot : (k w : ℕ) (m : Holds (node a path shift child) k w) → k / 2 ^ shift ≡ 16 * prefix + m.0
  slot k w m = valid.0.slots m.0 m.1 k w m.2

  -- the key's upper bits are not the path's: the whole subtree is to one side
  outside-IsFloor :
      upper ≢ prefix
      → IsFloor
          (node a path shift child)
          key
          (if ltb path key then find_successor (node a path shift child) else 0)
  outside-IsFloor off = elim (Bool-cases (ltb path key)) [
    | inl e ↦
        let lt : prefix < upper = (side off).0 (ground arith) in
        rw e (
          Greatest-IsFloor (node a path shift child) key _
            (find_successor-Greatest (node a path shift child) valid refl)
            (λ k w m.
              let lower : k < key = lt_of_div-pow k key shift (omega (arith, slot k w m, m.1)) in
              omega arith))
    | inr e ↦
        let ge : ¬ (prefix < upper) =
          λ p. absurd (omega (arith, (side off).1 p, ltb-false path key e)) in
        rw e (none_below λ k w m. lt_of_div-pow key k shift (omega (arith, slot k w m, m.1)))
  ]

  abbrev nib : ℕ
  nib = slice_index key shift

  module _ (on : upper ≡ prefix) where
    own_slot : key / 2 ^ shift ≡ 16 * prefix + nib
    own_slot = omega (arith, slice_index_lem key shift)

    -- an entry of a child to the right is above the key
    right_of : (k w j : ℕ) → j < slnodes → nib < j → Holds (child j) k w → key < k
    right_of k w j p lt m = lt_of_div-pow key k shift (omega (arith, own_slot, slot k w (j, p, m)))

    left_below : (k w j : ℕ) → j < nib → Holds (child j) k w → k < key
    left_below k w j lt m = lt_of_div-pow k key shift (
        omega (
          arith,
          own_slot,
          slice_index-lt key shift,
          slot k w (j, omega (arith, slice_index-lt key shift), m),
        ))

    -- an entry that is not above the key stands to the left, or below the child at its slice
    place :
        (k w : ℕ) (m : Holds (node a path shift child) k w)
        → k ≤ key
        → (m.0 < nib) ⊎ Holds (child nib) k w
    place k w m q = elim (dec_lt m.0 nib) [
      | yes lt ↦ inl lt
      | no ge ↦ elim (eq-cases m.0 nib) [
        | inl e ↦ inr (subst (λ x. Holds (child x) k w) e m.2)
        | inr ne ↦ absurd (omega (arith, right_of k w m.0 m.1 (omega arith) m.2))
      ]
    ]

    -- the child at the key's slice has nothing: the greatest key to the left of it
    left-IsFloor :
        ((k w : ℕ) → Holds (child nib) k w → key < k)
        → (o : Option ℕ) → Last nib child o
        → IsFloor
            (node a path shift child)
            key
            (elim o [ none ↦ 0 | some i ↦ find_successor (child i) ])
    left-IsFloor high none (no_child h) = none_below λ k w m. elim (dec_lt key k) [
      | yes lt ↦ lt
      | no ge ↦ elim (place k w m (omega arith)) [
        | inl lt ↦ absurd (Holds-null (child m.0) k w (h m.0 lt) m.2)
        | inr x ↦ high k w x
      ]
    ]
    left-IsFloor high o (last i p there rest) =
        let fits : i < slnodes = omega (arith, slice_index-lt key shift) in
        let g = find_successor-Greatest (child i) (valid.1 i fits) there in
        let low : g.key < key = left_below g.key (find_successor (child i)) i p g.held in
        floor g.key (find_successor (child i)) (i, fits, g.held) (omega arith)
          (λ k w m q. elim (place k w m q) [
            | inl lt ↦
                Greatest-left path shift child valid.0 nib i (find_successor (child i))
                  (omega (arith, slice_index-lt key shift)) p rest g m.0 k w lt m.2
            | inr x ↦ absurd (omega (arith, high k w x))
          ])

    search_left-IsFloor :
        ((k w : ℕ) → Holds (child nib) k w → key < k)
        → IsFloor (node a path shift child) key (search_left nib child)
    unfolding search_left
    search_left-IsFloor high = left-IsFloor high (last_child nib child) (last_child-Last nib child)

    -- the child at the key's slice has an answer
    child-IsFloor :
        (v : ℕ) → IsFloor (child nib) key v → v ≢ 0 → IsFloor (node a path shift child) key v
    child-IsFloor v (none_below h) ne = absurd (ne refl)
    child-IsFloor v (floor k v' m low above) ne =
        floor k v (nib, slice_index-lt key shift, m) low
          (λ j w n q. elim (place j w n q) [
            | inl lt ↦ omega (
              arith,
              left_of path shift child valid.0 nib n.0 k j v w (slice_index-lt key shift) lt m n.2,
            )
            | inr x ↦ above j w x q
          ])

    -- The child at the key's slice answers NULL: it has nothing up to the key, or key 0 with NULL,
    -- and then there is no child to the left.
    null-IsFloor :
        NullAtZero (node a path shift child)
        → (v : ℕ) → IsFloor (child nib) key v
        → v ≡ 0
        → IsFloor (node a path shift child) key (search_left nib child)
    unfolding search_left last_child
    null-IsFloor nulls v (none_below h) e = search_left-IsFloor h
    null-IsFloor nulls v (floor k v' m low above) e =
        let lt = slice_index-lt key shift in
        let zero_key : k ≡ 0 = nulls k v (nib, lt, m) e in
        let first : nib ≡ 0 =
          omega (arith, slot k v (nib, lt, m), ap (λ x. x / 2 ^ shift) zero_key) in
        let nothing : search_left nib child ≡ v = rw first (sym e) in
        subst (IsFloor (node a path shift child) key) (sym nothing) (
          floor k v (nib, lt, m) low
            (λ j w n q. elim (place j w n q) [
              | inl less ↦ absurd (omega (arith, less, first))
              | inr x ↦ above j w x q
            ]))

-- The search of a well-formed tree in which no value but that of key 0 is NULL.
pub find_le-IsFloor :
    (t : Tree) (key : ℕ) → key < word → IsValid t → NullAtZero t → IsFloor t key (find_le key t)
unfolding find_le
find_le-IsFloor null key h valid value = none_below (λ k w m. absurd m)
find_le-IsFloor (leaf a k v) key h valid value = elim (Bool-cases (leb k key)) [
  | inl e ↦ rw e (floor k v (refl, refl) (ground arith) (λ j w m q. omega arith))
  | inr e ↦ rw e (none_below (λ j w m. ground arith))
]
find_le-IsFloor (node a path shift child) key h valid value =
    let test = bit_xor-above_iff key path shift h valid.0.fits in
    elim (Bool-cases (bit_and (shr (bit_xor key path) shift) (complement nib_mask) == 0)) [
      | inr off ↦ rw off (outside-IsFloor a path shift child key h valid (λ e. cc (test.1 e)))
      | inl on ↦
          let i = slice_index key shift in
          let lt = slice_index-lt key shift in
          let nulls : NullAtZero (child i) = λ k w m. value k w (i, lt, m) in
          let answer = find_le-IsFloor (child i) key h (valid.1 i lt) nulls in
          rw on (elim (Bool-cases (find_le key (child i) == 0)) [
            | inl e ↦ rw e (
                null-IsFloor a path shift child key h valid (test.0 on) value
                  (find_le key (child i)) answer ((==_iff _ 0).0 e))
            | inr e ↦ rw e (
                child-IsFloor a path shift child key h valid (test.0 on) (find_le key (child i))
                  answer (λ x. cc ((==_iff _ 0).1 x)))
          ])
    ]
