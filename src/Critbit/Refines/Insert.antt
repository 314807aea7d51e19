-- ===== src/Critbit/Refines/Insert.antt =====
-- `critbit_insert` against the abstract view, for a key that is not there.
use ptok.Base.{
  ℕ, ◌-◌, ◌/◌, ◌%◌, ◌^◌, ◌≤◌, ◌<◌, bit_and, ◌≡◌, ◌≢◌, refl, sym, ap, ◌∙◌, ◌↔◌, ◌⊎◌, arith, ◌==◌,
  ==_iff, Bool-cases, eq-cases, inl, inr, Option, none, some,
}
use native.Mathlib.Nat.{mod-eq_of_lt, pow-le-pow_right}
use ptok.Word.{word}
use ptok.Word.Lowest.{bit_and_below}
use ptok.Mapping.{Mapping, update, absent_of_none, Agrees-add}
use ptok.Critbit.{Node, leaf, fork, Critbit}
use ptok.Critbit.Insert.{ok, enomem, Inserted, join, insert_walk, critbit_insert}
use ptok.Critbit.Valid.{Holds, IsValid, HoldsRoot, IsValidRoot, Represents}
use ptok.Critbit.Bits.{agree_below, index-lt}
use ptok.Critbit.Refines.Get.{side_lem}
use ptok.Critbit.Refines.Join.{Adds, join-Adds}

module _ (b path bit : ℕ) (left right : Node) (key v : ℕ)
    (valid : IsValid (fork b path bit left right)) (on : key % 2 ^ valid.0.index ≡ path) where
  into-left :
      (left' : Node)
      → key / 2 ^ valid.0.index % 2 ≡ 0
      → Adds left key v left'
      → Adds (fork b path bit left right) key v (fork b path bit left' right)
  into-left left' e add = record {
    valid = (
      record {
        index = valid.0.index;
        bound = valid.0.bound;
        one_bit = valid.0.one_bit;
        fits = valid.0.fits;
        left_side = λ k w m. elim ((add.entries k w).0 m) [
          | inl old ↦ valid.0.left_side k w old
          | inr new ↦ rw new.0 (on, e)
        ];
        right_side = valid.0.right_side;
      },
      add.valid,
      valid.2,
    );
    entries = λ k w. (
      λ m. elim m [
        | inl l ↦ elim ((add.entries k w).0 l) [ inl old ↦ inl (inl old) | inr new ↦ inr new ]
        | inr r ↦ inl (inr r)
      ],
      λ m. elim m [
        | inl old ↦ elim old [ inl l ↦ inl ((add.entries k w).1 (inl l)) | inr r ↦ inr r ]
        | inr new ↦ inl ((add.entries k w).1 (inr new))
      ],
    );
  }

  into-right :
      (right' : Node)
      → key / 2 ^ valid.0.index % 2 ≡ 1
      → Adds right key v right'
      → Adds (fork b path bit left right) key v (fork b path bit left right')
  into-right right' e add = record {
    valid = (
      record {
        index = valid.0.index;
        bound = valid.0.bound;
        one_bit = valid.0.one_bit;
        fits = valid.0.fits;
        left_side = valid.0.left_side;
        right_side = λ k w m. elim ((add.entries k w).0 m) [
          | inl old ↦ valid.0.right_side k w old
          | inr new ↦ rw new.0 (on, e)
        ];
      },
      valid.1,
      add.valid,
    );
    entries = λ k w. (
      λ m. elim m [
        | inl l ↦ inl (inl l)
        | inr r ↦ elim ((add.entries k w).0 r) [ inl old ↦ inl (inr old) | inr new ↦ inr new ]
      ],
      λ m. elim m [
        | inl old ↦ elim old [ inl l ↦ inl l | inr r ↦ inr ((add.entries k w).1 (inl r)) ]
        | inr new ↦ inr ((add.entries k w).1 (inr new))
      ],
    );
  }

-- the new node in place of an inner node whose path the key leaves
join_fork-Adds :
    (a key v b path bit : ℕ) (left right : Node)
    → key < word
    → (valid : IsValid (fork b path bit left right)) → key % 2 ^ valid.0.index ≢ path
    → Adds (fork b path bit left right) key v (join a key v path (fork b path bit left right))
join_fork-Adds a key v b path bit left right h valid off =
    let i = valid.0.index in
    let fits = valid.0.fits in
    let top : 2 ^ i ≤ word =
      pow-le-pow_right (omega arith) {j = 64} (omega (arith, valid.0.bound)) in
    join-Adds a key v path (fork b path bit left right) h (omega arith) valid
      (λ e. off (ap (λ (t : ℕ). t % 2 ^ i) (sym e) ∙ mod-eq_of_lt fits))
      (λ d k w m.
        let lt = index-lt key path i d.index fits d.below off in
        elim m [
          | inl x ↦ agree_below k path d.index i lt (valid.0.left_side k w x).0
          | inr x ↦ agree_below k path d.index i lt (valid.0.right_side k w x).0
        ])

-- Of a well-formed tree without the key, the walk makes one that has that entry more.
insert_walk-Adds :
    (a key v : ℕ) (n : Node)
    → key < word
    → IsValid n
    → ((w : ℕ) → ¬ Holds n key w)
    → Adds n key v (insert_walk a key v n)
unfolding insert_walk
insert_walk-Adds a key v (leaf b path w) h valid absent =
    join-Adds a key v path (leaf b path w) h valid valid (λ e. absent w (e, refl))
      (λ d k x m. rw m.0 (refl, refl))
insert_walk-Adds a key v (fork b path bit left right) h valid absent =
    let left' = insert_walk-Adds a key v left h valid.1 (λ w m. absent w (inl m)) in
    let right' = insert_walk-Adds a key v right h valid.2 (λ w m. absent w (inr m)) in
    let masked : bit_and key (bit - 1) ≡ key % 2 ^ valid.0.index =
      rw valid.0.one_bit (bit_and_below valid.0.index key) in
    let side = side_lem path bit left right valid.0 key in
    elim (Bool-cases (bit_and key (bit - 1) == path)) [
      | inr off ↦ rw off (
          join_fork-Adds a key v b path bit left right h valid
            (λ e. cc ((==_iff _ path).1 (masked ∙ e))))
      | inl e ↦
          let on : key % 2 ^ valid.0.index ≡ path = sym masked ∙ (==_iff _ path).0 e in
          elim (Bool-cases (bit_and bit key == 0)) [
            | inl l ↦
                rw (e, l)
                  (into-left b path bit left right key v valid on (insert_walk a key v left)
                    (side.0 l) left')
            | inr r ↦
                rw (e, r)
                  (into-right b path bit left right key v valid on (insert_walk a key v right)
                    (elim (eq-cases (key / 2 ^ valid.0.index % 2) 0) [
                      | inl zero ↦ absurd (cc (side.1 zero))
                      | inr other ↦ omega arith
                    ])
                    right')
          ]
    ]

root-Adds :
    (a key v : ℕ) (o : Option Node)
    → key < word
    → IsValidRoot o
    → ((w : ℕ) → ¬ HoldsRoot o key w)
    → (let t : Node = elim o [ none ↦ leaf a key v | some n ↦ insert_walk a key v n ] in
        IsValid t × ((k w : ℕ) → Holds t k w ↔ (HoldsRoot o k w ⊎ ((k ≡ key) × (w ≡ v)))))
root-Adds a key v none h valid absent = (
  h,
  λ k w.
      (λ m. inr (sym m.0, sym m.1), λ m. elim m [ inl x ↦ absurd x | inr x ↦ (sym x.0, sym x.1) ]),
)
root-Adds a key v (some n) h valid absent =
    let add = insert_walk-Adds a key v n h valid absent in (add.valid, add.entries)

-- 0 with the new entry, or ENOMEM with nothing changed
abbrev pub InsertOutcome : Critbit → Mapping → (key v : ℕ) → Option ℕ → Inserted → Type 0
InsertOutcome c m key v none r = (r.status ≡ enomem) × (r.critbit ≡ c)
InsertOutcome c m key v (some a) r = (r.status ≡ ok) × Represents r.critbit (update m key (some v))

-- `critbit_insert` of a 64-bit key that has no value returns 0 and adds the entry, or, where
-- `Zalloc` fails, returns ENOMEM and changes nothing. The tree stays well formed.
pub critbit_insert-Outcome :
    (c : Critbit) (m : Mapping) (key v : ℕ)
    → Represents c m
    → key < word
    → m key ≡ none
    → (got : Option ℕ) → InsertOutcome c m key v got (critbit_insert c got key v)
unfolding critbit_insert
critbit_insert-Outcome c m key v rep h fresh none = (refl, refl)
critbit_insert-Outcome c m key v rep h fresh (some a) =
    let (valid, entries) =
      root-Adds a key v c.root h rep.valid
        (absent_of_none (HoldsRoot c.root) m rep.agrees key fresh) in
    (
      refl,
      record {
        valid = valid;
        agrees =
            Agrees-add (HoldsRoot c.root) m rep.agrees key (Holds _) v
              (absent_of_none (HoldsRoot c.root) m rep.agrees key fresh) entries;
      },
    )
