-- ===== src/Tlog.antt =====
-- tlog.c: a log of the operations in an array of fixed size. The time stamp, which getticks reads
-- from the processor, is part of the record that is logged. An access to `tlog_data` outside the
-- array is `none`.
pub mod Laws
use ptok.Base.{
  ℕ, zero, suc, ◌+◌, ◌%◌, List, [], ◌∷◌, ◌++◌, if◌then◌else◌, ltb, leb, Option, none, some,
}
use mathlib.Core.Option
use ptok.Base.Arrays.{store}
use ptok.Word.{word}

-- TLOG_SIZE
abbrev pub tlog_size : ℕ
tlog_size = 33554432

-- what an element of `tlog_data` holds
pub record Entry : Type 0 where
  pub timestamp : ℕ
  pub tid : ℕ
  pub act : ℕ
  pub data1 : ℕ
  pub data2 : ℕ

-- the static variables; the elements of `tlog_data` are those below TLOG_SIZE
pub record Log : Type 0 where
  pub i : ℕ
  pub tlog_data : ℕ → Entry

abbrev pub tlog_init : Log → Log
tlog_init l = record l { i = 0 }

-- `tlog_data[o] = e` on the static array, which ends at TLOG_SIZE: `none` is a store outside it.
unfoldable pub store_entry : (ℕ → Entry) → (o : ℕ) → Entry → Option (ℕ → Entry)
store_entry tlog_data o e = if ltb o tlog_size then some (store tlog_data o e) else none

unfoldable pub tlog : Log → Entry → Option Log
tlog l e =
    let o = l.i in
    let l1 = record l { i = (o + 1) % word } in
    if ltb o tlog_size
    then Option.map (λ f. record l1 { tlog_data = f }) (store_entry l1.tlog_data o e)
    else some l1

-- the first `n` elements
unfoldable pub first_entries : (n : ℕ) → (ℕ → Entry) → List Entry
first_entries zero tlog_data = []
first_entries (suc n) tlog_data = first_entries n tlog_data ++ tlog_data n ∷ []

-- what `write` reads from the array: `none` is a read outside it
unfoldable pub read_entries : (n : ℕ) → (ℕ → Entry) → Option (List Entry)
read_entries n tlog_data = if leb n tlog_size then some (first_entries n tlog_data) else none

-- what is written to the file, if it can be created
unfoldable pub tlog_save : Log → Option (List Entry)
tlog_save l = read_entries (if ltb tlog_size l.i then tlog_size else l.i) l.tlog_data

-- the calls, one after the other
unfoldable pub tlog_all : Log → List Entry → Option Log
tlog_all l [] = some l
tlog_all l (e ∷ es) = elim (tlog l e) [ none ↦ none | some l1 ↦ tlog_all l1 es ]

-- `tlog_init`, the calls and `tlog_save`
unfoldable pub tlog_run : Log → List Entry → Option (List Entry)
tlog_run l es = elim (tlog_all (tlog_init l) es) [ none ↦ none | some l1 ↦ tlog_save l1 ]
