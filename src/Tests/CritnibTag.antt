-- ===== src/Tests/CritnibTag.antt =====
-- critnib-tag.c on the keys of test.c.
use ptok.Base.{ℕ, ◌&&◌, not, if◌then◌else◌, ◌≡◌, refl, arith, some, none, List, [], ◌∷◌}
use ptok.Word.{util_mssb_index64}
use ptok.Critnib.Tree.{Critnib, critnib_new, is_null, path_mask, slice_index}
use ptok.Critnib.Insert as Insert
use ptok.Critnib.Pools as Pools
use ptok.Critnib.Pools.{critnib_delete}
use ptok.Critnib.Insert.{critnib_insert}
use ptok.Critnib.Remove.{critnib_remove}
use ptok.Critnib.Find.{critnib_get, critnib_find_le}
use ptok.Critnib.Client.{State, Call, insert, call, run, steps}
use ptok.Critnib.Client.Laws.{run-new_allowed}
use ptok.Critnib.Mapping.{Mapping, empty, Represents}
use ptok.CritnibTag.Pools.{
  critnib_tag_new, alloc_leaf, alloc_node, free_leaf, free_node, critnib_tag_delete,
}
use ptok.CritnibTag.Insert.{insert_walk, part, split_node, critnib_tag_insert}
use ptok.CritnibTag.Remove.{
  remove_walk, after_child, collapse, scan_children, finish_remove, critnib_tag_remove,
}
use ptok.CritnibTag.Remove as TagRemove
use ptok.CritnibTag.Find.{critnib_tag_get, critnib_tag_find_le}
use ptok.CritnibTag.Same.{critnib_tag_insert-eq, critnib_tag_find-eq, critnib_tag_delete-eq}
use ptok.CritnibTag.Crash.{dead_end, critnib_tag_remove-cases, critnib_tag_remove-present}

abbrev first_key : ℕ
first_key = 0xdf19b817a2a574f0

abbrev second_key : ℕ
second_key = 0xc624b394880c9216

abbrev absent_key : ℕ
absent_key = 0xb2dfb9f1c6c36aa2

tag_keys : Critnib
unfolding critnib_tag_new critnib_tag_insert alloc_leaf alloc_node insert_walk part split_node
    util_mssb_index64
tag_keys =
    (critnib_tag_insert (critnib_tag_insert critnib_tag_new (some 100 ∷ []) first_key 97).critnib
      (some 101 ∷ some 102 ∷ []) second_key 99).critnib

-- the removal in test.c reads through NULL
removal_faults : (critnib_tag_remove tag_keys absent_key).result ≡ none
unfolding tag_keys critnib_tag_remove remove_walk after_child finish_remove TagRemove.rotate
    free_leaf free_node
removal_faults = refl

abbrev inserts : List Call
inserts = insert first_key 97 ∷ insert second_key 99 ∷ []

abbrev begin : State
begin = record { critnib = critnib_new; supply = some 100 ∷ some 101 ∷ some 102 ∷ [] }

two_keys : Critnib
two_keys = (run begin inserts).1.critnib

two_keys_map : Mapping
two_keys_map = steps empty inserts (run begin inserts).0

two_keys-Represents : Represents two_keys two_keys_map
unfolding two_keys two_keys_map
two_keys-Represents =
    (run-new_allowed (some 100 ∷ some 101 ∷ some 102 ∷ []) inserts (omega arith) (omega arith)).1

critnib_tag_remove-cases_example : critnib_tag_remove two_keys absent_key ≡ (
    if not (is_null two_keys.root) && dead_end absent_key two_keys.root
    then record { result = none; critnib = TagRemove.rotate two_keys }
    else critnib_remove two_keys absent_key)
critnib_tag_remove-cases_example =
    critnib_tag_remove-cases two_keys absent_key two_keys-Represents.valid

second_value : two_keys_map second_key ≡ some 99
unfolding two_keys_map run call Insert.critnib_insert Pools.alloc_leaf Pools.alloc_node
    Insert.insert_walk Insert.part Insert.split_at path_mask slice_index util_mssb_index64
    critnib_new
second_value = refl

critnib_tag_remove-present_example :
    critnib_tag_remove two_keys second_key ≡ critnib_remove two_keys second_key
critnib_tag_remove-present_example =
    critnib_tag_remove-present two_keys two_keys_map second_key 99 two_keys-Represents second_value

critnib_tag_insert-eq_example :
    critnib_tag_insert two_keys (some 103 ∷ []) absent_key 5
    ≡ critnib_insert two_keys (some 103 ∷ []) absent_key 5
critnib_tag_insert-eq_example = critnib_tag_insert-eq two_keys (some 103 ∷ []) absent_key 5

critnib_tag_find-eq_example :
    (critnib_tag_get 1 two_keys first_key ≡ critnib_get 1 two_keys first_key)
    × (critnib_tag_find_le 1 two_keys first_key ≡ critnib_find_le 1 two_keys first_key)
critnib_tag_find-eq_example = critnib_tag_find-eq 1 two_keys first_key

critnib_tag_delete-eq_example : critnib_tag_delete 1 two_keys ≡ critnib_delete 1 two_keys
critnib_tag_delete-eq_example = critnib_tag_delete-eq 1 two_keys
