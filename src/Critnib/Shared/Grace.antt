-- ===== src/Critnib/Shared/Grace.antt =====
-- The grace period over any sequence of calls: what a reader may stand at is not in the pools.
use ptok.Base.{ℕ, ◌+◌, ◌%◌, ◌≤◌, ◌<◌, ◌≡◌, refl, ◌∙◌, inl, inr, arith, List, [], ◌∷◌, eq-cases}
use ptok.Base.Arrays.{sum, sum_none}
use ptok.Word.{word}
use ptok.Critnib.Tree.{Critnib, deleted_life}
use ptok.Critnib.Insert.{critnib_insert}
use ptok.Critnib.Mapping.{Mapping}
use ptok.Critnib.Counts.{critnib_insert-count, critnib_remove-count}
use ptok.Critnib.Client.{Call, insert, remove, get, find, State, call, run, step}
use ptok.Critnib.Client.Laws.{Ready, call-Allowed}
use ptok.Critnib.Owned.{count, in_option, in_supply, owned}
use ptok.Critnib.Owned.Insert.{critnib_insert-owned}
use ptok.Critnib.Owned.Remove.{critnib_remove-owned}
use ptok.Critnib.Shared.Kept.{critnib_insert-Kept, Kept-Live}
use ptok.Critnib.Shared.Live.{Pending, Live, critnib_remove-Live}

module _ (x : ℕ) where
  abbrev total : State → ℕ
  total s = owned x s.critnib + in_supply x s.supply

  -- one call: the count grows, no address is lost, and what is live stays so in the grace period
  record Passed (since : ℕ) (s s' : State) : Type 0 where
    grows : s.critnib.remove_count ≤ s'.critnib.remove_count
    conserved : total s' ≡ total s
    live :
        s'.critnib.remove_count < since + deleted_life
        → Live s.critnib since x
        → Live s'.critnib since x

  call-Passed :
      (since : ℕ) (s : State) (m : Mapping) (o : Call) (calls : List Call)
      → Ready s m (o ∷ calls)
      → since ≤ s.critnib.remove_count + 1
      → Passed since s (call s o).1
  unfolding call
  call-Passed since s m (insert k v) calls ready h =
      let fits = ready.are_calls.0.0 in
      let valid = ready.represents.valid in
      let same = critnib_insert-count s.critnib s.supply k v in
      record {
        grows = omega (arith, same);
        conserved = critnib_insert-owned x s.critnib s.supply k v fits valid;
        live = λ grace.
            Kept-Live x s.critnib (critnib_insert s.critnib s.supply k v).critnib since
              (critnib_insert-Kept x s.critnib s.supply k v fits valid) same;
      }
  call-Passed since s m (remove k) calls ready h =
      let room : s.critnib.remove_count + 1 < word = omega (arith, ready.count) in
      record {
        grows = ground (arith, critnib_remove-count s.critnib k, room);
        conserved = omega (arith, critnib_remove-owned x s.critnib k);
        live = λ grace. critnib_remove-Live s.critnib k since x grace h room;
      }
  call-Passed since s m (get k) calls ready h = record {
    grows = omega arith;
    conserved = refl;
    live = λ grace l. l;
  }
  call-Passed since s m (find k) calls ready h = record {
    grows = omega arith;
    conserved = refl;
    live = λ grace l. l;
  }

  run-Passed :
      (since : ℕ) (s : State) (m : Mapping) (calls : List Call)
      → Ready s m calls
      → since ≤ s.critnib.remove_count + 1
      → Passed since s (run s calls).1
  unfolding run
  run-Passed since s m [] ready h = record {
    grows = omega arith;
    conserved = refl;
    live = λ grace l. l;
  }
  run-Passed since s m (o ∷ calls) ready h =
      let p = call-Passed since s m o calls ready h in
      let (allowed, next) = call-Allowed s m o calls ready in
      let s' = (call s o).1 in
      let q = run-Passed since s' (step m o (call s o).0) calls next (omega (arith, h, p.grows)) in
      record {
        grows = omega (arith, p.grows, q.grows);
        conserved = q.conserved ∙ p.conserved;
        live = λ grace l. q.live grace (p.live (omega (arith, grace, q.grows)) l);
      }

  -- an address that stands in a pending slot counts among those that the structure owns
  Pending-sum :
      (c : Critnib) (d : ℕ)
      → Pending c d x
      → 1
        ≤ sum deleted_life (λ i. in_option x (c.pending_del_nodes i))
          + sum deleted_life (λ i. in_option x (c.pending_del_leaves i))
  Pending-sum c d p =
      let i = d % deleted_life in
      elim (eq-cases (sum deleted_life (λ i. in_option x (c.pending_del_nodes i))) 0) [
        | inl e ↦ elim (eq-cases (sum deleted_life (λ i. in_option x (c.pending_del_leaves i))) 0) [
          | inl e2 ↦ omega (
            arith,
            p,
            sum_none deleted_life (λ i. in_option x (c.pending_del_nodes i)) e i (omega arith),
            sum_none deleted_life (λ i. in_option x (c.pending_del_leaves i)) e2 i (omega arith),
          )
          | inr ne ↦ omega (arith, ne)
        ]
        | inr ne ↦ omega (arith, ne)
      ]

  -- no call of `alloc_node`, `alloc_leaf` or `Malloc` will return the address
  pub record Safe (s : State) : Type 0 where
    pub deleted_node : count x s.critnib.deleted_node ≡ 0
    pub deleted_leaf : count x s.critnib.deleted_leaf ≡ 0
    pub supply : in_supply x s.supply ≡ 0

  Live-Safe : (since : ℕ) (s : State) → total s ≤ 1 → Live s.critnib since x → Safe s
  Live-Safe since s once (inl h) = record {
    deleted_node = omega (arith, once, h);
    deleted_leaf = omega (arith, once, h);
    supply = omega (arith, once, h);
  }
  Live-Safe since s once (inr (d, from, past, p)) =
      let q = Pending-sum s.critnib d p in
      record {
        deleted_node = omega (arith, once, q);
        deleted_leaf = omega (arith, once, q);
        supply = omega (arith, once, q);
      }

  -- On a structure that represents a partial function, let an address be owned at most once,
  -- counting the results of `Malloc` to come, and stand in the tree, or in the pending slot of a
  -- remove that found a `remove_count` of at least `since - 1`, where `since` is at most
  -- `remove_count` + 1. After any sequence of calls with 64-bit keys, where NULL is inserted at
  -- key 0 only and the calls are too few to bring `remove_count` within 16 of 2 ^ 64: as long as
  -- `remove_count` is below `since` + 16, so that a reader that has loaded `since` would accept
  -- its result, the address still stands in the tree or in such a slot, and it is neither in a
  -- pool nor among the results of `Malloc` to come.
  pub run-Safe :
      (since : ℕ) (s : State) (m : Mapping) (calls : List Call)
      → Ready s m calls
      → owned x s.critnib + in_supply x s.supply ≤ 1
      → since ≤ s.critnib.remove_count + 1
      → Live s.critnib since x
      → (run s calls).1.critnib.remove_count < since + deleted_life
      → Live (run s calls).1.critnib since x × Safe (run s calls).1
  run-Safe since s m calls ready once h l grace =
      let p = run-Passed since s m calls ready h in
      let live = p.live grace l in
      (live, Live-Safe since (run s calls).1 (omega (arith, once, p.conserved)) live)
