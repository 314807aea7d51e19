-- ===== src/Tests/CritnibShared.antt =====
-- `critnib_get` of critnib.c, load by load, on a small tree in memory.
use ptok.Base.{ℕ, ◌+◌, ◌<◌, ◌≡◌, ◌≢◌, refl, arith, [], ◌∷◌, ◌≤◌, if◌then◌else◌, ◌==◌}
use ptok.Base.Arrays as Arrays
use ptok.Base.Arrays.{sum}
use ptok.Word.{word}
use ptok.Critnib.Tree.{Tree, null, leaf, node, slice_index, deleted_life}
use ptok.Critnib.Find.{get_walk}
use ptok.Critnib.Owned.{in_tree}
use ptok.Critnib.Shared.{
  nil, pointer as pointer_to, Cell, Memory, Shows, start as start_reader, returned, load, loads,
  interleave,
}
use ptok.Critnib.Shared.Undisturbed.{Carries, Stays, interleave-get_walk}

-- A node with two leaves, in memory; then a writer fills cell 200, and the count grows past the
-- grace period of a reader that has begun.
abbrev two_leaves : ℕ → Tree
two_leaves = Arrays.store (Arrays.store (λ _. null) 1 (leaf 100 0x10 7)) 2 (leaf 101 0x20 8)

abbrev small_tree : Tree
small_tree = node 102 0 4 two_leaves

abbrev node_cell : Cell
node_cell = record {
  path = 0;
  shift = 4;
  child = λ i. pointer_to (two_leaves i);
  key = 0;
  value = 0;
}

abbrev leaf_cell : (key value : ℕ) → Cell
leaf_cell key value = record { path = 0; shift = 0; child = λ _. nil; key = key; value = value }

abbrev small_memory : Memory
small_memory = record {
  root = pointer_to small_tree;
  remove_count = 3;
  cell =
      λ a. if a == 102 then node_cell else if a == 100 then leaf_cell 0x10 7 else leaf_cell 0x20 8;
}

abbrev filled : Memory
filled = record small_memory { cell = Arrays.store small_memory.cell 200 (leaf_cell 0x30 9) }

abbrev aged : Memory
aged = record filled { remove_count = 30 }

small-Carries : Carries small_tree small_memory
unfolding pointer_to
small-Carries = record {
  root = refl;
  shows = (
    refl,
    refl,
    λ i p. (
      refl,
      Arrays.store_case (λ _ t. Shows small_memory.cell t)
          (Arrays.store (λ _. null) 1 (leaf 100 0x10 7)) 2 (leaf 101 0x20 8) (refl, refl)
          (λ j _.
            Arrays.store_case (λ _ t. Shows small_memory.cell t) (λ _. null) 1 (leaf 100 0x10 7)
              (refl, refl) (λ _ _. tt) j)
          i,
    ),
  );
}

not_there : (x : ℕ) → 1 ≤ in_tree x small_tree → x ≢ 200
unfolding sum
not_there x h e = ground arith

filled-Stays : Stays small_tree small_memory filled
filled-Stays = record {
  grows = omega arith;
  root = refl;
  same = λ x h. Arrays.store_ne small_memory.cell 200 x (leaf_cell 0x30 9) (not_there x h);
}

aged-Stays : Stays small_tree filled aged
aged-Stays = record { grows = omega arith; root = refl; same = λ x h. refl }

aged_bound : aged.remove_count + deleted_life < word
aged_bound = omega arith

interleave-get_walk_example :
    (n : ℕ) × (loads 0x20 n aged
        (interleave 0x20 (2 ∷ 1 ∷ 1 ∷ []) (small_memory ∷ filled ∷ aged ∷ []) start_reader)
      ≡ returned (get_walk 0x20 small_tree))
interleave-get_walk_example =
    interleave-get_walk 0x20 small_tree (2 ∷ 1 ∷ 1 ∷ []) small_memory (filled ∷ aged ∷ [])
      small-Carries (filled-Stays, (aged-Stays, aged_bound))

-- the first round is refused, and the next returns the value
reads_again :
    loads 0x20 10 aged
      (interleave 0x20 (2 ∷ 1 ∷ 1 ∷ []) (small_memory ∷ filled ∷ aged ∷ []) start_reader)
    ≡ returned 8
unfolding loads load interleave pointer_to slice_index
reads_again = refl
