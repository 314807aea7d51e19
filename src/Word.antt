-- ===== src/Word.antt =====
-- 64-bit words (`uint64_t`) as natural numbers below 2 ^ 64, with the C operators that critnib.c,
-- critnib-tag.c, critbit.c and tcradix.c use on keys. `clz` is the compiler's builtin behind
-- `util_mssb_index64` of util.h, here a search for the highest set bit.
pub mod Bits
pub mod Slices
pub mod Lowest
use ptok.Base.{
  ℕ, zero, suc, ◌+◌, ◌-◌, ◌*◌, ◌/◌, ◌%◌, ◌^◌, bit_and, bit_xor, Bool, ltb, if◌then◌else◌,
}

abbrev pub word : ℕ
word = 2 ^ 64

-- x >> k
abbrev pub shr : ℕ → ℕ → ℕ
shr x k = x / 2 ^ k

-- x << k, at 64 bits
abbrev pub shl : ℕ → ℕ → ℕ
shl x k = (x * 2 ^ k) % word

-- ~x, at 64 bits
abbrev pub complement : ℕ → ℕ
complement x = word - 1 - x

-- -x, at 64 bits
abbrev pub negate : ℕ → ℕ
negate x = (word - x) % word

-- the index of the highest set bit of a number with at most `fuel + 1` bits
unfoldable pub mssb_search : ℕ → ℕ → ℕ
mssb_search zero x = 0
mssb_search (suc fuel) x = if ltb x 2 then 0 else suc (mssb_search fuel (x / 2))

-- `util_mssb_index64`
unfoldable pub util_mssb_index64 : ℕ → ℕ
unfolding mssb_search
util_mssb_index64 x = mssb_search 63 x
