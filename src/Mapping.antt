-- ===== src/Mapping.antt =====
-- What an index from keys to values holds, seen from outside: a partial function. critnib.c,
-- critnib-tag.c, critbit.c and tcradix.c are read through it; `Agrees holds m` says that the entries that
-- a structure holds are those of `m`.
use mathlib.Core.Path.{subst}
use ptok.Base.{
  ℕ, ◌<◌, ◌≤◌, ◌≡◌, ◌≢◌, sym, ap, ◌↔◌, ◌⊎◌, inl, inr, ◌==◌, ==_iff, ==_ne, eq-cases, Option, none,
  some, Option-cases, if◌then◌else◌,
}

abbrev pub Mapping : Type 0
Mapping = ℕ → Option ℕ

abbrev pub empty : Mapping
empty _ = none

-- `m` with `o` at `key`
abbrev pub update : Mapping → ℕ → Option ℕ → Mapping
update m key o k = if k == key then o else m k

-- what the interface returns for an entry: NULL for none
abbrev pub value_or_null : Option ℕ → ℕ
value_or_null none = 0
value_or_null (some v) = v

abbrev pub Agrees : (ℕ → ℕ → Type 0) → Mapping → Type 0
Agrees holds m = (k v : ℕ) → holds k v ↔ (m k ≡ some v)

-- The entry of the greatest key up to `key`, or NULL where `m` has no such key.
pub data MapFloor (m : Mapping) (key : ℕ) : ℕ → Type 0 where
  no_key : ((k v : ℕ) → m k ≡ some v → key < k) → MapFloor m key 0
  greatest :
      (k v : ℕ)
      → m k ≡ some v
      → k ≤ key
      → ((j w : ℕ) → m j ≡ some w → j ≤ key → j ≤ k)
      → MapFloor m key v

-- no value but that of key 0 is NULL
abbrev pub NullAtZero : Mapping → Type 0
NullAtZero m = (k v : ℕ) → m k ≡ some v → v ≡ 0 → k ≡ 0

some_injective : (v w : ℕ) → some v ≡ some w → v ≡ w
some_injective v w e = cc

module _ (holds : ℕ → ℕ → Type 0) (m : Mapping) (agrees : Agrees holds m) (key : ℕ) where
  pub none_of_absent : ((w : ℕ) → ¬ holds key w) → m key ≡ none
  none_of_absent h = elim (Option-cases (m key)) [
    | inl e ↦ e
    | inr e ↦ absurd (h e.0 ((agrees key e.0).1 e.1))
  ]

  pub absent_of_none : m key ≡ none → (w : ℕ) → ¬ holds key w
  absent_of_none e w h = absurd (cc ((agrees key w).0 h))

  module _ (after : ℕ → ℕ → Type 0) where
    -- one more entry
    pub Agrees-add :
        (v : ℕ)
        → ((w : ℕ) → ¬ holds key w)
        → ((k w : ℕ) → after k w ↔ (holds k w ⊎ ((k ≡ key) × (w ≡ v))))
        → Agrees after (update m key (some v))
    Agrees-add v absent entries k w = elim (eq-cases k key) [
      | inl same ↦ rw ((==_iff k key).1 same) (
        λ h. elim ((entries k w).0 h) [
          | inl old ↦ absurd (absent w (subst (λ x. holds x w) same old))
          | inr new ↦ ap some (sym new.1)
        ],
        λ h. (entries k w).1 (inr (same, sym (some_injective v w h))),
      )
      | inr ne ↦ rw (==_ne k key ne) (
        λ h. elim ((entries k w).0 h) [
          | inl old ↦ (agrees k w).0 old
          | inr new ↦ absurd (ne new.0)
        ],
        λ h. (entries k w).1 (inl ((agrees k w).1 h)),
      )
    ]

    -- one entry less
    pub Agrees-drop :
        ((k w : ℕ) → after k w ↔ (holds k w × (k ≢ key))) → Agrees after (update m key none)
    Agrees-drop entries k w = elim (eq-cases k key) [
      | inl same ↦
          rw ((==_iff k key).1 same) (λ h. absurd (((entries k w).0 h).1 same), λ h. absurd (cc h))
      | inr ne ↦
          rw (==_ne k key ne)
            (λ h. (agrees k w).0 ((entries k w).0 h).0, λ h. (entries k w).1 ((agrees k w).1 h, ne))
    ]
