-- ===== src/Tests/Tlog.antt =====
-- tlog.c with two records.
use ptok.Base.{ℕ, ◌+◌, ◌≡◌, refl, arith, some, List, [], ◌∷◌}
use ptok.Tlog.{
  tlog_size, Entry, Log, store_entry, tlog, first_entries, read_entries, tlog_save, tlog_all,
  tlog_run,
}
use ptok.Tlog.Laws.{take, tlog_run-take}

abbrev record_of : ℕ → Entry
record_of n = record { timestamp = n; tid = 1; act = 2; data1 = n; data2 = 0 }

abbrev used : Log
used = record { i = 99; tlog_data = record_of }

abbrev two : List Entry
two = record_of 7 ∷ record_of 8 ∷ []

tlog_run-take_example : tlog_run used two ≡ some (take tlog_size two)
tlog_run-take_example = tlog_run-take used two (omega arith)

runs : tlog_run used two ≡ some two
unfolding tlog_run tlog_save tlog_all tlog store_entry first_entries read_entries
runs = refl

-- the record after the last place is counted and not stored
abbrev full : Log
full = record used { i = tlog_size }

drops : tlog full (record_of 7) ≡ some (record full { i = tlog_size + 1 })
unfolding tlog
drops = refl
