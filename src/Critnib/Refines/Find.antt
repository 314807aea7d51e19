-- ===== src/Critnib/Refines/Find.antt =====
-- `critnib_get` and `critnib_find_le` against the abstract view, on a structure at rest.
use ptok.Base.{ℕ, suc, ◌+◌, ◌<◌, ◌≡◌, ap, ◌∙◌, some, Option-cases, inl, inr}
use ptok.Word.{word}
use ptok.Critnib.Tree.{Critnib, deleted_life}
use ptok.Critnib.Find.{get_walk, critnib_get, find_le, critnib_find_le}
use ptok.Critnib.Find.Get.{get_walk-Holds, get_walk_absent, retry_once}
use ptok.Critnib.Find.Floor.{find_le-IsFloor}
use ptok.Critnib.Mapping.{Mapping, value_or_null, Represents, MapFloor, MapFloor-of_tree}

pub get_walk-value :
    (c : Critnib) (m : Mapping)
    → Represents c m
    → (key : ℕ) → get_walk key c.root ≡ value_or_null (m key)
get_walk-value c m rep key = elim (Option-cases (m key)) [
  | inl e ↦ rw e (get_walk_absent c.root key (λ v h. cc ((rep.reads key v).0 h)))
  | inr e ↦ rw (e.1) (get_walk-Holds c.root key e.0 rep.valid ((rep.reads key e.0).1 e.1))
]

module _ (c : Critnib) (m : Mapping) (rep : Represents c m)
    (count : c.remove_count + deleted_life < word) where
  -- `critnib_get` returns, in its first round, the value of the key, or NULL if it has none.
  pub critnib_get-value :
      (fuel key : ℕ) → critnib_get (suc fuel) c key ≡ some (value_or_null (m key))
  unfolding critnib_get
  critnib_get-value fuel key =
      retry_once fuel c.remove_count (get_walk key c.root) count
      ∙ ap some (get_walk-value c m rep key)

  -- `critnib_find_le` returns, in its first round, the value of the greatest key that is not
  -- above its argument, or NULL if there is none, if no value but that of key 0 is NULL.
  pub critnib_find_le-MapFloor :
      (fuel key : ℕ)
      → key < word
      → ((k v : ℕ) → m k ≡ some v → v ≡ 0 → k ≡ 0)
      → (v : ℕ) × (critnib_find_le (suc fuel) c key ≡ some v) × MapFloor m key v
  unfolding critnib_find_le
  critnib_find_le-MapFloor fuel key in_word some_value = (
    find_le key c.root,
    retry_once fuel c.remove_count (find_le key c.root) count,
    MapFloor-of_tree c.root m key (find_le key c.root) rep.reads (
        find_le-IsFloor c.root key in_word rep.valid
          (λ k v h. some_value k v ((rep.reads k v).0 h))),
  )
