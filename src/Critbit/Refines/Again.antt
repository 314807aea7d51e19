-- ===== src/Critbit/Refines/Again.antt =====
-- `critbit_insert` of a key that is there already.
use ptok.Base.{
  ℕ, ◌-◌, ◌%◌, ◌^◌, bit_and, ◌≡◌, refl, ◌∙◌, true, ◌==◌, ==_iff, ==_refl, inl, inr, Option, none,
  some,
}
use ptok.Word.{negate}
use ptok.Word.Lowest.{zero-bit_and, bit_and_below}
use ptok.Mapping.{Mapping}
use ptok.Word.Bits.{bit_xor_self}
use ptok.Critbit.{Node, leaf, fork, Critbit, get_walk, critbit_get}
use ptok.Critbit.Insert.{ok, join, insert_walk, critbit_insert}
use ptok.Critbit.Valid.{Holds, IsFork, IsValid, HoldsRoot, IsValidRoot, Represents}
use ptok.Critbit.Refines.Get.{goes_left, goes_right}

on_path :
    (key path bit : ℕ) (left right : Node) (fit : IsFork path bit left right)
    → key % 2 ^ fit.index ≡ path
    → (bit_and key (bit - 1) == path) ≡ true
on_path key path bit left right fit e =
    (==_iff _ path).1 (rw fit.one_bit (bit_and_below fit.index key) ∙ e)

-- A second insertion of a key makes the new node, read as a leaf, the value of the key.
insert_walk_again :
    (a key v : ℕ) (n : Node) (old : ℕ)
    → IsValid n
    → Holds n key old
    → get_walk key (insert_walk a key v n) ≡ a
unfolding insert_walk join get_walk
insert_walk_again a key v (leaf b path w) old valid m =
    rw (m.0, bit_xor_self key, zero-bit_and (negate 0)) (rw (==_refl key))
insert_walk_again a key v (fork b path bit left right) old valid (inl m) =
    rw
      (
        on_path key path bit left right valid.0 (valid.0.left_side key old m).0,
        goes_left path bit left right valid.0 key old m,
      )
      (rw (goes_left path bit left right valid.0 key old m)
        (insert_walk_again a key v left old valid.1 m))
insert_walk_again a key v (fork b path bit left right) old valid (inr m) =
    rw
      (
        on_path key path bit left right valid.0 (valid.0.right_side key old m).0,
        goes_right path bit left right valid.0 key old m,
      )
      (rw (goes_right path bit left right valid.0 key old m)
        (insert_walk_again a key v right old valid.2 m))

get_root_again :
    (a key v old : ℕ) (o : Option Node)
    → IsValidRoot o
    → HoldsRoot o key old
    → get_walk key (elim o [ none ↦ leaf a key v | some n ↦ insert_walk a key v n ]) ≡ a
get_root_again a key v old none valid m = absurd m
get_root_again a key v old (some n) valid m = insert_walk_again a key v n old valid m

-- Where the key already has a value, `critbit_insert` returns 0, not EEXIST, and from then on
-- `critbit_get` returns the address of the new leaf in place of a value.
pub critbit_insert-again :
    (c : Critbit) (m : Mapping) (key v old a : ℕ)
    → Represents c m
    → m key ≡ some old
    → ((critbit_insert c (some a) key v).status ≡ ok)
      × (critbit_get (critbit_insert c (some a) key v).critbit key ≡ a)
unfolding critbit_insert critbit_get
critbit_insert-again c m key v old a rep e =
    (refl, get_root_again a key v old c.root rep.valid ((rep.agrees key old).1 e))
