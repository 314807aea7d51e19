-- ===== src/Critnib/Client/Laws.antt =====
-- The replies to a sequence of calls against those of the abstract view.
use ptok.Base.{ℕ, ◌+◌, ◌<◌, ◌≡◌, ap, arith, none, some, List, [], ◌∷◌}
use ptok.Word.{word}
use ptok.Base.Arrays.{length}
use ptok.Critnib.Tree.{Critnib, critnib_new, deleted_life}
use ptok.Critnib.Pools.{Supply}
use ptok.Critnib.Insert.{Status, ok, eexist, enomem, critnib_insert}
use ptok.Critnib.Remove.{critnib_remove}
use ptok.Critnib.Mapping.{Mapping, empty, update, Represents, NullAtZero}
use ptok.Critnib.Refines.Insert.{InsertOutcome, critnib_insert-Outcome}
use ptok.Critnib.Refines.Remove.{critnib_remove-Outcome}
use ptok.Critnib.Refines.Find.{critnib_get-value, critnib_find_le-MapFloor}
use ptok.Critnib.Counts.{critnib_insert-count, remove_count-le}
use ptok.Critnib.Client.{
  Call, insert, remove, get, find, status, reply, State, call, run, step, Allowed, AllAllowed,
  steps, AreCalls,
}

-- What a sequence of calls needs of the state, and keeps.
pub record Ready (s : State) (m : Mapping) (calls : List Call) : Type 0 where
  pub represents : Represents s.critnib m
  pub nulls : NullAtZero m
  pub are_calls : AreCalls calls
  pub count : s.critnib.remove_count + length calls + deleted_life < word

update-none-NullAtZero : (m : Mapping) (key : ℕ) → NullAtZero m → NullAtZero (update m key none)
update-none-NullAtZero m key h k v e z = ground (arith, h k v)

update-some-NullAtZero :
    (m : Mapping) (key w : ℕ)
    → (w ≡ 0 → key ≡ 0)
    → NullAtZero m
    → NullAtZero (update m key (some w))
update-some-NullAtZero m key w ne h k v e z = ground (arith, h k v)

insert-Allowed :
    (c : Critnib) (supply : Supply) (m : Mapping) (k v : ℕ) (calls : List Call)
    → (v ≡ 0 → k ≡ 0)
    → NullAtZero m
    → AreCalls calls
    → c.remove_count + length calls + deleted_life < word
    → (st : Status) → InsertOutcome m k v c st
    → Allowed m (insert k v) (status st)
      × Ready (record { critnib = c; supply = supply }) (step m (insert k v) (status st)) calls
insert-Allowed c supply m k v calls ne nulls are count ok o = (
  o.0,
  record {
    represents = o.1;
    nulls = update-some-NullAtZero m k v ne nulls;
    are_calls = are;
    count = count;
  },
)
insert-Allowed c supply m k v calls ne nulls are count eexist o =
    (o.0, record { represents = o.1; nulls = nulls; are_calls = are; count = count })
insert-Allowed c supply m k v calls ne nulls are count enomem o =
    (tt, record { represents = o; nulls = nulls; are_calls = are; count = count })

-- One call: an allowed reply, and a state for the calls that follow.
pub call-Allowed :
    (s : State) (m : Mapping) (o : Call) (calls : List Call)
    → Ready s m (o ∷ calls)
    → let (r, s') = call s o in Allowed m o r × Ready s' (step m o r) calls
unfolding call
call-Allowed s m (insert k v) calls h =
    let i = critnib_insert s.critnib s.supply k v in
    insert-Allowed i.critnib i.supply m k v calls h.are_calls.0.1 h.nulls h.are_calls.1
      (omega (arith, h.count, critnib_insert-count s.critnib s.supply k v)) i.status
      (critnib_insert-Outcome s.critnib m h.represents k h.are_calls.0.0 s.supply v)
call-Allowed s m (remove k) calls h =
    let r = critnib_remove s.critnib k in
    let o = critnib_remove-Outcome s.critnib m h.represents k in
    (
      ap reply o.0,
      record {
        represents = o.1;
        nulls = update-none-NullAtZero m k h.nulls;
        are_calls = h.are_calls.1;
        count = omega (arith, h.count, remove_count-le s.critnib k);
      },
    )
call-Allowed s m (get k) calls h =
    let e = critnib_get-value s.critnib m h.represents (omega (arith, h.count)) 0 k in
    (
      ap reply e,
      record {
        represents = h.represents;
        nulls = h.nulls;
        are_calls = h.are_calls.1;
        count = omega (arith, h.count);
      },
    )
call-Allowed s m (find k) calls h =
    let (v, e, f) =
      critnib_find_le-MapFloor s.critnib m h.represents (omega (arith, h.count)) 0 k h.are_calls.0
        h.nulls in
    (
      (v, ap reply e, f),
      record {
        represents = h.represents;
        nulls = h.nulls;
        are_calls = h.are_calls.1;
        count = omega (arith, h.count);
      },
    )

run_allowed :
    (s : State) (m : Mapping) (calls : List Call)
    → Ready s m calls
    → let (replies, last) = run s calls in
      AllAllowed m calls replies × Represents last.critnib (steps m calls replies)
unfolding run
run_allowed s m [] h = (tt, h.represents)
run_allowed s m (o ∷ calls) h =
    let (reply_allowed, ready) = call-Allowed s m o calls h in
    let (rest, represents) = run_allowed (call s o).1 (step m o (call s o).0) calls ready in
    ((reply_allowed, rest), represents)

-- From a new critnib, any sequence of fewer than 2 ^ 64 - 16 calls with 64-bit keys, where
-- NULL is inserted at key 0 only, and any results of `Malloc`: every call returns, every reply is one that the
-- mapping at that moment allows, and the last structure represents the last mapping.
pub run-new_allowed :
    (supply : Supply) (calls : List Call)
    → AreCalls calls
    → length calls + deleted_life < word
    → let (replies, last) = run (record { critnib = critnib_new; supply = supply }) calls in
      AllAllowed empty calls replies × Represents last.critnib (steps empty calls replies)
unfolding critnib_new
run-new_allowed supply calls are count =
    run_allowed (record { critnib = critnib_new; supply = supply }) empty calls
      (record {
        represents = record { valid = tt; reads = λ k v. (λ h. absurd h, λ e. cc e) };
        nulls = λ k v e z. cc e;
        are_calls = are;
        count = omega (arith, count);
      })
