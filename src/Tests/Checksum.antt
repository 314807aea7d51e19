-- ===== src/Tests/Checksum.antt =====
-- The checksums of util.c.
use ptok.Base.{ℕ, ◌+◌, ◌<◌, ◌≡◌, refl, arith, true, false, List, [], ◌∷◌, ◌++◌}
use ptok.Util.Checksum.{
  length, take, word_at, write_at, fletcher, checksum_of, util_checksum, fletcher_seq,
  util_checksum_seq,
}
use ptok.Util.Checksum.Laws.{util_checksum-inserted, util_checksum_seq-append, checksum_of-seq}

abbrev words : List ℕ
words = 1 ∷ 2 ∷ 0xffffffff ∷ 4 ∷ 5 ∷ []

sequential : util_checksum_seq words 0 ≡ 0x170000000b
unfolding util_checksum_seq fletcher_seq
sequential = refl

-- words 1 and 2 count as zeros
with_place : checksum_of words 1 0 ≡ 0x120000000a
unfolding checksum_of fletcher length
with_place = refl

fits : 1 + 1 < length words
unfolding length
fits = omega arith

util_checksum-inserted_example :
    (util_checksum (util_checksum words 4 1 true 0).memory 4 1 false 0).result ≡ true
util_checksum-inserted_example = util_checksum-inserted words 4 1 0 fits

-- The checksum of three words, in the two words after them, with a change of the range.
inserts : (util_checksum words 3 3 true 0).memory ≡ 1 ∷ 2 ∷ 0xffffffff ∷ 2 ∷ 6 ∷ []
unfolding util_checksum checksum_of fletcher length take write_at
inserts = refl

notices : (util_checksum (1 ∷ 3 ∷ 0xffffffff ∷ 2 ∷ 6 ∷ []) 3 3 false 0).result ≡ false
unfolding util_checksum checksum_of fletcher length take word_at
notices = refl

util_checksum_seq-append_example :
    util_checksum_seq (words ++ words) 7 ≡ util_checksum_seq words (util_checksum_seq words 7)
util_checksum_seq-append_example = util_checksum_seq-append words words 7

checksum_of-seq_example : checksum_of words 5 0 ≡ util_checksum_seq words 0
unfolding length
checksum_of-seq_example = checksum_of-seq words 5 (omega arith)
