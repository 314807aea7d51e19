-- ===== src/Tcradix/Refines/Get.antt =====
-- `tcradix_get` against the abstract view, on a structure at rest.
use ptok.Base.{ℕ, ◌%◌, ◌<◌, ◌≡◌, arith, some, ==_ne, ==_refl}
use ptok.Word.{word}
use ptok.Mapping.{Mapping, value_or_null}
use ptok.Tcradix.{Head}
use ptok.Tcradix.Get.{tcradix_get}
use ptok.Tcradix.Refines.{Represents, Represents-Reads}

-- On a structure at rest that represents a partial function, `tcradix_get` of a 64-bit key returns
-- its value, or NULL if it has none, without `get_slow`.
pub tcradix_get-value :
    (h : Head) (m : Mapping) (key : ℕ)
    → Represents h m
    → key < word
    → tcradix_get 0 h key ≡ some (value_or_null (m key))
unfolding tcradix_get
tcradix_get-value h m key rep fits =
    rw (==_ne (h.write_status % 2) 1 (λ e. omega (arith, rep.at_rest)), ==_refl h.write_status)
      (Represents-Reads h m rep key fits)
