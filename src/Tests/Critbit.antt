-- ===== src/Tests/Critbit.antt =====
-- critbit.c on the keys of test.c.
use ptok.Base.{ℕ, ◌≡◌, refl, arith, some, [], ◌∷◌}
use ptok.Mapping.{Mapping, empty, update, value_or_null}
use ptok.Critbit.{
  Critbit, critbit_new, critbit_get, get_walk, critbit_delete, delete_node, free_node,
}
use ptok.Critbit.Insert.{ok, critbit_insert, insert_walk, join}
use ptok.Critbit.Remove.{critbit_remove, remove_walk, finish_remove}
use ptok.Critbit.Valid.{Represents}
use ptok.Critbit.Refines.Get.{critbit_get-value}
use ptok.Critbit.Refines.Insert.{InsertOutcome, critbit_insert-Outcome}
use ptok.Critbit.Refines.Again.{critbit_insert-again}
use ptok.Critbit.Refines.Remove.{RemoveOutcome, critbit_remove-Outcome}

abbrev first_key : ℕ
first_key = 0xdf19b817a2a574f0

abbrev second_key : ℕ
second_key = 0xc624b394880c9216

abbrev one_key : Critbit
one_key = (critbit_insert critbit_new (some 1000) first_key 97).critbit

abbrev two_keys : Critbit
two_keys = (critbit_insert one_key (some 2000) second_key 99).critbit

new-Represents : Represents critbit_new empty
unfolding critbit_new
new-Represents = record { valid = tt; agrees = λ k v. (λ h. absurd h, λ h. absurd (cc h)) }

abbrev one_map : Mapping
one_map = update empty first_key (some 97)

abbrev two_map : Mapping
two_map = update one_map second_key (some 99)

one_key-Represents : Represents one_key one_map
one_key-Represents =
    (critbit_insert-Outcome critbit_new empty first_key 97 new-Represents (omega arith) refl
      (some 1000)).1

critbit_insert-Outcome_example :
    InsertOutcome one_key one_map second_key 99
      (some 2000)
      (critbit_insert one_key (some 2000) second_key 99)
critbit_insert-Outcome_example =
    critbit_insert-Outcome one_key one_map second_key 99 one_key-Represents (omega arith) refl
      (some 2000)

two_keys-Represents : Represents two_keys two_map
two_keys-Represents =
    (critbit_insert-Outcome one_key one_map second_key 99 one_key-Represents (omega arith) refl
      (some 2000)).1

critbit_get-value_example : critbit_get two_keys second_key ≡ value_or_null (two_map second_key)
critbit_get-value_example = critbit_get-value two_keys two_map two_keys-Represents second_key

critbit_remove-Outcome_example : RemoveOutcome two_map first_key (critbit_remove two_keys first_key)
critbit_remove-Outcome_example =
    critbit_remove-Outcome two_keys two_map two_keys-Represents first_key

critbit_insert-again_example :
    ((critbit_insert two_keys (some 3000) first_key 5).status ≡ ok)
    × (critbit_get (critbit_insert two_keys (some 3000) first_key 5).critbit first_key ≡ 3000)
critbit_insert-again_example =
    critbit_insert-again two_keys two_map first_key 5 97 3000 two_keys-Represents refl

-- the same by running it; and `critbit_delete` then passes 3032 to `Free`, which is not the start
-- of an allocation, and never frees 1000 and 3000
runs :
    (critbit_get two_keys first_key ≡ 97)
    × ((critbit_remove two_keys second_key).result ≡ 99)
    × (critbit_delete 1 (critbit_insert two_keys (some 3000) first_key 5).critbit
        ≡ 2000 ∷ 3032 ∷ 1 ∷ [])
unfolding critbit_new critbit_get critbit_insert insert_walk join get_walk critbit_remove
    remove_walk finish_remove free_node critbit_delete delete_node
runs = (refl, refl, refl)
