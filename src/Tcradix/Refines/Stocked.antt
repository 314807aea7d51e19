-- ===== src/Tcradix/Refines/Stocked.antt =====
-- `tcradix_insert` when there is memory.
use ptok.Base.{◌+◌, ℕ, ◌<◌, ◌≤◌, ◌≡◌, ◌≢◌, some, ==_ne}
use mathlib.Core.Path.{subst}
use ptok.Word.{word}
use ptok.Mapping.{Mapping, update}
use ptok.Tcradix.{Head, write_poke}
use ptok.Tcradix.Insert.{ok, first_key, tcradix_insert}
use ptok.Tcradix.Stock.{stock, insert-Suffices}
use ptok.Tcradix.Refines.{Represents, upper-word}
use ptok.Tcradix.Refines.Insert.{first_key-Started, InsertOutcome, tcradix_insert-Outcome}

module _ (h : Head) (m : Mapping) (key v : ℕ) (rep : Represents h m) (fits : key < word)
    (some_value : v ≢ 0) where
  -- with `spare` nodes left
  insert-spare :
      (spare : ℕ)
      → spare + 30 ≤ stock h.pool
      → ((tcradix_insert h key v).status ≡ ok) × (spare ≤ stock (tcradix_insert h key v).head.pool)
  unfolding tcradix_insert write_poke
  insert-spare spare enough =
      let start = first_key-Started h.root key v some_value fits rep.root in
      let s =
        insert-Suffices 15 key v some_value spare 0 h.pool (first_key h.root key v) rep.clean
          start.valid (upper-word key fits) enough in
      rw (==_ne v 0 some_value) (s.returned, s.left)

  -- On a structure that represents a partial function, if at least 30 nodes wait for reuse or come
  -- from the next calls of `Malloc`, `tcradix_insert` of a 64-bit key with a value that is not NULL
  -- returns 0, sets the value of the key and uses up at most 30 of these nodes.
  pub tcradix_insert-stocked :
      (spare : ℕ)
      → spare + 30 ≤ stock h.pool
      → ((tcradix_insert h key v).status ≡ ok)
        × Represents (tcradix_insert h key v).head (update m key (some v))
        × (spare ≤ stock (tcradix_insert h key v).head.pool)
  tcradix_insert-stocked spare enough =
      let (returned, left) = insert-spare spare enough in
      (
        returned,
        subst (λ s. InsertOutcome m key v s (tcradix_insert h key v).head) returned
            (tcradix_insert-Outcome h m key v rep fits some_value),
        left,
      )
