-- ===== src/Tests/Tcradix.antt =====
-- tcradix.c at concrete keys, 0 among them.
use ptok.Base.{ℕ, ◌+◌, ◌%◌, ◌≤◌, ◌≡◌, refl, arith, Option, some, List, [], ◌∷◌, inl}
use ptok.Mapping.{Mapping, empty, update, value_or_null}
use ptok.Tcradix.{
  Head, tcradix_new, sl, alloc_node, write_poke, tcradix_delete, teardown, each_slot,
}
use ptok.Tcradix.Insert.{ok, enomem, tcradix_insert, insert, insert_child}
use ptok.Tcradix.Remove.{tcradix_remove, nremove}
use ptok.Tcradix.Get.{tcradix_get, get_walk}
use ptok.Tcradix.Refines.{Unused, Represents, Reads-EntryAt, get_walk-Unused}
use ptok.Tcradix.Refines.Insert.{InsertOutcome, tcradix_insert-Outcome}
use ptok.Tcradix.Refines.Remove.{RemoveOutcome, tcradix_remove-Outcome}
use ptok.Tcradix.Stock.{stock}
use ptok.Tcradix.Refines.Stocked.{tcradix_insert-stocked}
use ptok.Tcradix.Refines.Get.{tcradix_get-value}
use ptok.Tcradix.Refines.Refused.{Exhausted, tcradix_insert-refused}

-- memory for 32 nodes
abbrev ten : ℕ → List (Option ℕ) → List (Option ℕ)
ten a l =
    some (a + 1)
    ∷ some (a + 2)
    ∷ some (a + 3)
    ∷ some (a + 4)
    ∷ some (a + 5)
    ∷ some (a + 6)
    ∷ some (a + 7)
    ∷ some (a + 8)
    ∷ some (a + 9)
    ∷ some (a + 10)
    ∷ l

abbrev memory : List (Option ℕ)
memory = some 31 ∷ some 32 ∷ ten 0 (ten 10 (ten 20 []))

abbrev first : ℕ
first = 0xdf19b817a2a574f0

abbrev second : ℕ
second = 0xdf19b817a2a574f1

abbrev new_head : Head
new_head = tcradix_new 500 memory

abbrev one : Head
one = (tcradix_insert new_head first 97).head

abbrev two : Head
two = (tcradix_insert one 0 99).head

abbrev one_map : Mapping
one_map = update empty first (some 97)

abbrev two_map : Mapping
two_map = update one_map 0 (some 99)

new-Unused : (supply : List (Option ℕ)) → Unused (tcradix_new 500 supply).root
unfolding tcradix_new
new-Unused supply = record {
  only_key = refl;
  only_val = refl;
  nchildren = refl;
  nodes = λ i p. refl;
}

new-Represents : Represents new_head empty
unfolding tcradix_new
new-Represents = record {
  root = inl (new-Unused memory);
  clean = tt;
  at_rest = refl;
  entries =
      Reads-EntryAt _ empty (inl (new-Unused memory))
        (λ k p. get_walk-Unused _ k (new-Unused memory));
}

new_at_rest : (tcradix_new 500 []).write_status % 2 ≡ 0
unfolding tcradix_new
new_at_rest = refl

new-Exhausted : Exhausted (tcradix_new 500 []).pool
unfolding tcradix_new
new-Exhausted = record { deleted_node = refl; supply = refl }

new-stocked : 0 + 30 ≤ stock new_head.pool
unfolding tcradix_new
new-stocked = omega arith

one-Represents : Represents one one_map
one-Represents =
    (tcradix_insert-stocked new_head empty first 97 new-Represents (omega arith) (λ e. cc) 0
      new-stocked).1

one-stocked : 1 + 30 ≤ stock one.pool
unfolding tcradix_new tcradix_insert insert insert_child alloc_node sl write_poke
one-stocked = omega arith

tcradix_insert-stocked_example :
    ((tcradix_insert one 0 99).status ≡ ok)
    × Represents (tcradix_insert one 0 99).head (update one_map 0 (some 99))
    × (1 ≤ stock (tcradix_insert one 0 99).head.pool)
tcradix_insert-stocked_example =
    tcradix_insert-stocked one one_map 0 99 one-Represents (omega arith) (λ e. cc) 1 one-stocked

tcradix_insert-Outcome_example :
    InsertOutcome one_map 0 99 (tcradix_insert one 0 99).status (tcradix_insert one 0 99).head
tcradix_insert-Outcome_example =
    tcradix_insert-Outcome one one_map 0 99 one-Represents (omega arith) (λ e. cc)

two-Represents : Represents two two_map
two-Represents = tcradix_insert-stocked_example.1

tcradix_get-value_example : tcradix_get 0 two first ≡ some (value_or_null (two_map first))
tcradix_get-value_example = tcradix_get-value two two_map first two-Represents (omega arith)

tcradix_remove-Outcome_example : RemoveOutcome two_map first (tcradix_remove two first)
tcradix_remove-Outcome_example =
    tcradix_remove-Outcome two two_map first two-Represents (omega arith)

tcradix_insert-refused_example :
    ((tcradix_insert (tcradix_new 500 []) first 7).status ≡ enomem)
    × (tcradix_get 0 (tcradix_insert (tcradix_new 500 []) first 7).head first ≡ some 7)
tcradix_insert-refused_example =
    tcradix_insert-refused (tcradix_new 500 []) first 7 (new-Unused []) new_at_rest new-Exhausted
      (λ e. cc) (λ e. cc)

-- the same by running it; the second insertion of a key replaces its value; `first` and 0 share no
-- node but the root, and 0 has nodes at all levels
runs :
    (tcradix_get 0 two first ≡ some 97)
    × (tcradix_get 0 two second ≡ some 0)
    × (tcradix_get 0 two 0 ≡ some 99)
    × (tcradix_get 0 (tcradix_insert two 0 5).head 0 ≡ some 5)
    × ((tcradix_remove two 0).result ≡ some 99)
    × (tcradix_get 0 (tcradix_remove two 0).head first ≡ some 97)
unfolding tcradix_new tcradix_insert insert insert_child alloc_node sl write_poke tcradix_get
    get_walk tcradix_remove nremove
runs = (refl, refl, refl, refl, refl, refl)

deletes : tcradix_delete one ≡ 31 ∷ 500 ∷ []
unfolding tcradix_new tcradix_insert insert insert_child alloc_node sl write_poke tcradix_delete
    teardown each_slot
deletes = refl
