-- ===== src/Tests/Critnib.antt =====
-- critnib.c on the keys of test.c and some more.
use ptok.Base.{ℕ, ◌+◌, ◌<◌, ◌≡◌, ◌≢◌, refl, arith, some, List, [], ◌∷◌, inl, ◌≤◌}
use ptok.Base.Arrays.{sum}
use ptok.Word.{word, util_mssb_index64}
use ptok.Critnib.Tree.{Critnib, critnib_new, path_mask, slice_index, deleted_life}
use ptok.Critnib.Pools.{
  Supply, alloc_node, alloc_leaf, free_node, free_leaf, each_below, delete_node, critnib_delete,
}
use ptok.Critnib.Insert.{ok, eexist, enomem, split_at, part, insert_walk, critnib_insert}
use ptok.Critnib.Remove.{
  scan_children, collapse, after_child, remove_walk, rotate, finish_remove, critnib_remove,
}
use ptok.Critnib.Find.{
  get_walk, retry, critnib_get, last_child, find_successor, search_left, find_le, critnib_find_le,
}
use ptok.Critnib.Mapping.{Mapping, empty, value_or_null, Represents, MapFloor}
use ptok.Critnib.Refines.Insert.{InsertOutcome, critnib_insert-Outcome}
use ptok.Critnib.Refines.Memory.{critnib_insert-ne-enomem}
use ptok.Critnib.Refines.Remove.{RemoveOutcome, critnib_remove-Outcome}
use ptok.Critnib.Refines.Find.{critnib_get-value, critnib_find_le-MapFloor}
use ptok.Critnib.Owned.{owned, in_supply, in_tree, count, hit}
use ptok.Critnib.Owned.Insert.{critnib_insert-owned}
use ptok.Critnib.Owned.Remove.{critnib_remove-owned}
use ptok.Critnib.Owned.Delete.{count-critnib_delete}
use ptok.Critnib.Client.{
  Call, insert, remove, get, find, Reply, status, pointer, State, call, run, AllAllowed, steps,
}
use ptok.Critnib.Client.Laws.{Ready, run-new_allowed}
use ptok.Critnib.Shared.Live.{Live}
use ptok.Critnib.Shared.Grace.{Safe, run-Safe}

abbrev memory : Supply
memory = some 100 ∷ some 101 ∷ some 102 ∷ some 103 ∷ some 104 ∷ some 105 ∷ some 106 ∷ some 107 ∷ []

-- the calls of test.c, with numbers for the strings, and more
abbrev calls : List Call
calls =
    insert 0xdf19b817a2a574f0 97
    ∷ insert 0xc624b394880c9216 99
    ∷ remove 0xb2dfb9f1c6c36aa2
    ∷ insert 0xdf19b817a2a574f1 98
    ∷ get 0xdf19b817a2a574f0
    ∷ find 0xd000000000000000
    ∷ []

abbrev start : State
start = record { critnib = critnib_new; supply = memory }

sample_run : List Reply × State
unfolding run call critnib_insert alloc_leaf alloc_node insert_walk part split_at path_mask
    slice_index util_mssb_index64 free_leaf free_node critnib_remove remove_walk after_child
    collapse scan_children rotate finish_remove critnib_get get_walk retry critnib_find_le find_le
    find_successor search_left last_child critnib_new
sample_run = run start calls

sample_replies :
    sample_run.0 ≡ status ok ∷ status ok ∷ pointer 0 ∷ status ok ∷ pointer 97 ∷ pointer 99 ∷ []
unfolding sample_run
sample_replies = refl

sample : Critnib
unfolding sample_run
sample = sample_run.1.critnib

sample_remove : (critnib_remove sample 0xc624b394880c9216).result ≡ some 99
unfolding sample
sample_remove = refl

refused : (critnib_insert sample [] 0xc624b394880c9216 5).status ≡ enomem
unfolding sample
refused = refl

present_already : (critnib_insert sample memory 0xc624b394880c9216 5).status ≡ eexist
unfolding sample
present_already = refl

sample_delete : critnib_delete 1 sample ≡ 101 ∷ 100 ∷ 103 ∷ 104 ∷ 102 ∷ 1 ∷ []
unfolding sample critnib_delete delete_node each_below
sample_delete = refl

run-new_allowed_example :
    AllAllowed empty calls (run start calls).0
    × Represents (run start calls).1.critnib (steps empty calls (run start calls).0)
run-new_allowed_example = run-new_allowed memory calls (omega arith) (omega arith)

abbrev sample_map : Mapping
unfolding sample_run
sample_map = steps empty calls sample_run.0

sample-Represents : Represents sample sample_map
unfolding sample sample_run
sample-Represents = (run-new_allowed memory calls (omega arith) (omega arith)).1

critnib_insert-Outcome_example :
    let i = critnib_insert sample memory 0xdf19b817a2a57500 7 in
    InsertOutcome sample_map 0xdf19b817a2a57500 7 i.critnib i.status
critnib_insert-Outcome_example =
    critnib_insert-Outcome sample sample_map sample-Represents 0xdf19b817a2a57500 (omega arith)
      memory 7

critnib_insert-ne-enomem_example :
    (critnib_insert sample memory 0xdf19b817a2a57500 7).status ≢ enomem
critnib_insert-ne-enomem_example =
    critnib_insert-ne-enomem sample 100 101
      (some 102 ∷ some 103 ∷ some 104 ∷ some 105 ∷ some 106 ∷ some 107 ∷ []) 0xdf19b817a2a57500 7

critnib_remove-Outcome_example :
    RemoveOutcome sample_map 0xc624b394880c9216 (critnib_remove sample 0xc624b394880c9216)
critnib_remove-Outcome_example =
    critnib_remove-Outcome sample sample_map sample-Represents 0xc624b394880c9216

count_small : sample.remove_count + deleted_life < word
unfolding sample
count_small = omega arith

critnib_get-value_example :
    critnib_get 1 sample 0xc624b394880c9216 ≡ some (value_or_null (sample_map 0xc624b394880c9216))
critnib_get-value_example =
    critnib_get-value sample sample_map sample-Represents count_small 0 0xc624b394880c9216

nulls : (k v : ℕ) → sample_map k ≡ some v → v ≡ 0 → k ≡ 0
unfolding sample_run
nulls k v e z = ground arith

critnib_find_le-MapFloor_example :
    (v : ℕ) × (critnib_find_le 1 sample 0xdf ≡ some v) × MapFloor sample_map 0xdf v
critnib_find_le-MapFloor_example =
    critnib_find_le-MapFloor sample sample_map sample-Represents count_small 0 0xdf (omega arith)
      nulls

critnib_insert-owned_example :
    let i = critnib_insert sample memory 0xdf19b817a2a57500 7 in
    owned 102 i.critnib + in_supply 102 i.supply ≡ owned 102 sample + in_supply 102 memory
critnib_insert-owned_example =
    critnib_insert-owned 102 sample memory 0xdf19b817a2a57500 7 (omega arith)
      sample-Represents.valid

critnib_remove-owned_example :
    owned 100 (critnib_remove sample 0xdf19b817a2a574f0).critnib ≡ owned 100 sample
critnib_remove-owned_example = critnib_remove-owned 100 sample 0xdf19b817a2a574f0

count-critnib_delete_example : count 102 (critnib_delete 1 sample) ≡ owned 102 sample + hit 102 1
count-critnib_delete_example = count-critnib_delete 102 1 sample

-- A reader that has loaded the count 1 may stand at the leaf 100 while its key is removed and others are
-- inserted, for which memory is short.
abbrev before_removal : State
before_removal = record { critnib = sample; supply = some 105 ∷ [] }

abbrev later_calls : List Call
later_calls = remove 0xdf19b817a2a574f0 ∷ insert 0xdf19b817a2a574f0 5 ∷ insert 0x123456789 6 ∷ []

owned_once : owned 100 sample + in_supply 100 (some 105 ∷ []) ≤ 1
unfolding sample_run sample sum
owned_once = omega arith

there : 1 ≤ in_tree 100 sample.root
unfolding sample_run sample sum
there = omega arith

before : 1 ≤ sample.remove_count + 1
before = omega arith

accepted : (run before_removal later_calls).1.critnib.remove_count < 1 + deleted_life
unfolding sample_run sample run call critnib_insert alloc_leaf alloc_node insert_walk part split_at
    path_mask slice_index util_mssb_index64 free_leaf free_node critnib_remove remove_walk
    after_child collapse scan_children rotate finish_remove
accepted = omega arith

before_removal-Ready : Ready before_removal sample_map later_calls
unfolding sample
before_removal-Ready = record {
  represents = sample-Represents;
  nulls = nulls;
  are_calls = omega arith;
  count = omega arith;
}

run-Safe_example :
    Live (run before_removal later_calls).1.critnib 1 100
    × Safe 100 (run before_removal later_calls).1
run-Safe_example =
    run-Safe 100 1 before_removal sample_map later_calls before_removal-Ready owned_once before
      (inl there) accepted
