-- ===== src/Critnib/Find/Get.antt =====
-- `critnib_get` against what the tree holds: the dive, and the loop around it.
use ptok.Base.{
  ℕ, suc, ◌+◌, ◌<◌, ◌≡◌, refl, sym, ◌∙◌, arith, ◌==◌, ==_iff, ==_refl, Bool-cases, inl, inr, some,
}
use mathlib.Core.Path.{subst}
use ptok.Word.{word}
use ptok.Critnib.Tree.{Tree, null, leaf, node, slice_index, deleted_life}
use ptok.Critnib.Valid.{Holds, IsValid, slice_index_lem, slice_index-lt}
use ptok.Critnib.Find.{get_walk, retry}

-- An entry of a node stands below the child with its key's slice.
pub Holds-slice :
    (a path shift : ℕ) (child : ℕ → Tree) (k v : ℕ)
    → IsValid (node a path shift child)
    → Holds (node a path shift child) k v
    → Holds (child (slice_index k shift)) k v
Holds-slice a path shift child k v valid m =
    subst (λ x. Holds (child x) k v)
      (omega (arith, valid.0.slots m.0 m.1 k v m.2, slice_index_lem k shift)) m.2

pub get_walk-Holds : (t : Tree) (k v : ℕ) → IsValid t → Holds t k v → get_walk k t ≡ v
unfolding get_walk
get_walk-Holds null k v valid m = absurd m
get_walk-Holds (leaf a j w) k v valid m = rw m.0 (rw (==_refl k) m.1)
get_walk-Holds (node a path shift child) k v valid m =
    get_walk-Holds (child (slice_index k shift)) k v
      (valid.1 (slice_index k shift) (slice_index-lt k shift))
      (Holds-slice a path shift child k v valid m)

pub get_walk_absent : (t : Tree) (k : ℕ) → ((v : ℕ) → ¬ Holds t k v) → get_walk k t ≡ 0
unfolding get_walk
get_walk_absent null k h = refl
get_walk_absent (leaf a j w) k h = elim (Bool-cases (j == k)) [
  | inl e ↦ absurd (h w ((==_iff j k).0 e, refl))
  | inr e ↦ rw e
]
get_walk_absent (node a path shift child) k h =
    get_walk_absent (child (slice_index k shift)) k
      (λ v m. h v (slice_index k shift, slice_index-lt k shift, m))

-- A key has one value.
pub Holds-unique : (t : Tree) (k v w : ℕ) → IsValid t → Holds t k v → Holds t k w → v ≡ w
Holds-unique t k v w valid m n = sym (get_walk-Holds t k v valid m) ∙ get_walk-Holds t k w valid n

-- Where the sum does not wrap, an undisturbed round is the last.
pub retry_once : (fuel n res : ℕ) → n + deleted_life < word → retry (suc fuel) n n res ≡ some res
unfolding retry
retry_once fuel n res h = ground arith
