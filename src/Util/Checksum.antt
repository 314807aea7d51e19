-- ===== src/Util/Checksum.antt =====
-- `util_checksum` and `util_checksum_seq` of util.c. Memory from the start of the range on is the
-- list of its 32-bit words, read as little-endian; positions in it (`csump`, `skip`) are counted in
-- words. A checksum that is stored before the range is not represented, nor are lengths that are
-- no multiple of 4 bytes, at which the code aborts.
pub mod Laws
use ptok.Base.{
  ℕ, zero, suc, ◌+◌, ◌*◌, ◌/◌, ◌%◌, ◌^◌, Bool, ◌||◌, true, false, List, [], ◌∷◌, if◌then◌else◌,
  ◌==◌, leb,
}

-- the values of `uint32_t`
abbrev pub half : ℕ
half = 2 ^ 32

abbrev pub join_halves : (hi lo : ℕ) → ℕ
join_halves hi lo = hi * half + lo

-- The loop of `util_checksum` at word `i`. At the checksum itself, and from `skip` on, it takes
-- two words as zeros, which leads past the end where only one is left.
unfoldable pub fletcher : (csump skip i lo32 hi32 : ℕ) → List ℕ → ℕ
fletcher csump skip i lo32 hi32 [] = join_halves hi32 lo32
fletcher csump skip i lo32 hi32 (x ∷ []) =
    if i == csump || leb skip i
    then join_halves ((hi32 + lo32 + lo32) % half) lo32
    else join_halves ((hi32 + (lo32 + x) % half) % half) ((lo32 + x) % half)
fletcher csump skip i lo32 hi32 (x ∷ y ∷ rest) =
    let zeros = fletcher csump skip (i + 2) lo32 ((hi32 + lo32 + lo32) % half) rest in
    let added =
      fletcher csump skip (i + 1) ((lo32 + x) % half) ((hi32 + (lo32 + x) % half) % half)
        (y ∷ rest) in
    if i == csump || leb skip i then zeros else added

unfoldable pub length : List ℕ → ℕ
length [] = 0
length (x ∷ rest) = suc (length rest)

unfoldable pub take : ℕ → List ℕ → List ℕ
take zero l = []
take (suc n) [] = []
take (suc n) (x ∷ rest) = x ∷ take n rest

-- the word at an index
unfoldable pub word_at : ℕ → List ℕ → ℕ
word_at i [] = 0
word_at zero (x ∷ rest) = x
word_at (suc i) (x ∷ rest) = word_at i rest

unfoldable pub write_at : (i word : ℕ) → List ℕ → List ℕ
write_at i w [] = []
write_at zero w (x ∷ rest) = w ∷ rest
write_at (suc i) w (x ∷ rest) = x ∷ write_at i w rest

-- `skip_off` 0 stands for the end of the range
unfoldable pub checksum_of : List ℕ → (csump skip_off : ℕ) → ℕ
checksum_of l csump skip_off = fletcher csump (if skip_off == 0 then length l else skip_off) 0 0 0 l

pub record Checked : Type 0 where
  pub result : Bool
  pub memory : List ℕ

-- The range is the first `len` words of `memory`, and the checksum stands in `memory`, in the range
-- or after it.
unfoldable pub util_checksum :
    (memory : List ℕ) (len csump : ℕ) → (insert : Bool) → (skip_off : ℕ) → Checked
util_checksum memory len csump true skip_off =
    let csum = checksum_of (take len memory) csump skip_off in
    record {
      result = true;
      memory = write_at csump (csum % half) (write_at (csump + 1) (csum / half) memory);
    }
util_checksum memory len csump false skip_off = record {
  result =
      join_halves (word_at (csump + 1) memory) (word_at csump memory)
      == checksum_of (take len memory) csump skip_off;
  memory = memory;
}

-- the loop of `util_checksum_seq`
unfoldable pub fletcher_seq : (lo32 hi32 : ℕ) → List ℕ → ℕ
fletcher_seq lo32 hi32 [] = join_halves hi32 lo32
fletcher_seq lo32 hi32 (x ∷ rest) =
    fletcher_seq ((lo32 + x) % half) ((hi32 + (lo32 + x) % half) % half) rest

unfoldable pub util_checksum_seq : List ℕ → (csum : ℕ) → ℕ
util_checksum_seq l csum = fletcher_seq (csum % half) (csum / half % half) l
