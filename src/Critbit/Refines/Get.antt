-- ===== src/Critbit/Refines/Get.antt =====
-- `critbit_get` against the abstract view: a walk that looks at one bit for each node.
use ptok.Base.{
  ℕ, ◌/◌, ◌%◌, ◌^◌, bit_and, ◌≡◌, ◌↔◌, refl, arith, true, false, ◌==◌, ==_iff, ==_refl, Bool-cases,
  inl, inr, some, Option-cases,
}
use mathlib.Core.Path.{subst}
use ptok.Mapping.{Mapping, value_or_null, none_of_absent}
use ptok.Critbit.{Node, leaf, fork, Critbit, get_walk, critbit_get}
use ptok.Critbit.Valid.{Holds, IsFork, IsValid, HoldsRoot, IsValidRoot, Represents}
use ptok.Critbit.Bits.{side_iff}

-- the test of a node's bit, where the key has it clear and where it has it set
module _ (path bit : ℕ) (left right : Node) (fit : IsFork path bit left right) (key : ℕ) where
  pub side_lem : ((bit_and bit key == 0) ≡ true) ↔ (key / 2 ^ fit.index % 2 ≡ 0)
  side_lem = rw fit.one_bit (side_iff fit.index key)

  pub goes_left : (v : ℕ) → Holds left key v → (bit_and bit key == 0) ≡ true
  goes_left v m = side_lem.1 (fit.left_side key v m).1

  pub goes_right : (v : ℕ) → Holds right key v → (bit_and bit key == 0) ≡ false
  goes_right v m = elim (Bool-cases (bit_and bit key == 0)) [
    | inl e ↦ absurd (omega (arith, side_lem.0 e, (fit.right_side key v m).1))
    | inr e ↦ e
  ]

pub get_walk-Holds : (n : Node) (k v : ℕ) → IsValid n → Holds n k v → get_walk k n ≡ v
unfolding get_walk
get_walk-Holds (leaf a p w) k v valid m = rw m.0 (rw (==_refl k) m.1)
get_walk-Holds (fork a p bit left right) k v valid (inl m) =
    rw (goes_left p bit left right valid.0 k v m) (get_walk-Holds left k v valid.1 m)
get_walk-Holds (fork a p bit left right) k v valid (inr m) =
    rw (goes_right p bit left right valid.0 k v m) (get_walk-Holds right k v valid.2 m)

get_walk_absent : (n : Node) (k : ℕ) → ((v : ℕ) → ¬ Holds n k v) → get_walk k n ≡ 0
unfolding get_walk
get_walk_absent (leaf a p w) k h = elim (Bool-cases (p == k)) [
  | inl e ↦ absurd (h w ((==_iff p k).0 e, refl))
  | inr e ↦ rw e
]
get_walk_absent (fork a p bit left right) k h =
    let left' = get_walk_absent left k (λ v m. h v (inl m)) in
    let right' = get_walk_absent right k (λ v m. h v (inr m)) in
    elim (Bool-cases (bit_and bit k == 0)) [ inl e ↦ rw e left' | inr e ↦ rw e right' ]

value-Holds :
    (c : Critbit) (m : Mapping) (key : ℕ)
    → Represents c m
    → (n : Node) → c.root ≡ some n
    → IsValid n × ((v : ℕ) → Holds n key v ↔ (m key ≡ some v))
value-Holds c m key rep n e = (
  subst IsValidRoot e rep.valid,
  λ v. subst (λ r. HoldsRoot r key v ↔ (m key ≡ some v)) e (rep.agrees key v),
)

-- `critbit_get` returns the value of the key, or NULL if it has none.
pub critbit_get-value :
    (c : Critbit) (m : Mapping)
    → Represents c m
    → (key : ℕ) → critbit_get c key ≡ value_or_null (m key)
unfolding critbit_get
critbit_get-value c m rep key = elim (Option-cases c.root) [
  | inl e ↦ rw (
    e,
    none_of_absent (HoldsRoot c.root) m rep.agrees key (λ w h. subst (λ r. HoldsRoot r key w) e h),
  )
  | inr (n, e) ↦
      let (valid, own) = value-Holds c m key rep n e in
      elim (Option-cases (m key)) [
        | inl none_there ↦
            rw (e, none_there) (get_walk_absent n key (λ w h. absurd (cc ((own w).0 h))))
        | inr (v, there) ↦ rw (e, there) (get_walk-Holds n key v valid ((own v).1 there))
      ]
]
