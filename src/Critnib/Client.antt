-- ===== src/Critnib/Client.antt =====
-- Any sequence of calls of the interface of critnib.h, made one after the other.
pub mod Laws
use ptok.Base.{ℕ, suc, ◌+◌, ◌<◌, ◌≡◌, ◌≢◌, Option, none, some, List, [], ◌∷◌}
use ptok.Base.Arrays.{length}
use ptok.Word.{word}
use ptok.Critnib.Tree.{Critnib}
use ptok.Critnib.Pools.{Supply}
use ptok.Critnib.Insert.{Status, ok, eexist, enomem, critnib_insert}
use ptok.Critnib.Remove.{critnib_remove}
use ptok.Critnib.Find.{critnib_get, critnib_find_le}
use ptok.Critnib.Mapping.{Mapping, update, value_or_null, MapFloor}

pub data Call : Type 0 where
  insert : (key value : ℕ) → Call
  remove : (key : ℕ) → Call
  get : (key : ℕ) → Call
  find : (key : ℕ) → Call

-- `stuck` is a call that did not return: a fault, or a reader that went round once more
pub data Reply : Type 0 where
  status : Status → Reply
  pointer : ℕ → Reply
  stuck : Reply

abbrev pub reply : Option ℕ → Reply
reply none = stuck
reply (some v) = pointer v

pub record State : Type 0 where
  pub critnib : Critnib
  pub supply : Supply

unfoldable pub call : State → Call → Reply × State
call s (insert k v) =
    let i = critnib_insert s.critnib s.supply k v in
    (status i.status, record { critnib = i.critnib; supply = i.supply })
call s (remove k) =
    let r = critnib_remove s.critnib k in (reply r.result, record s { critnib = r.critnib })
call s (get k) = (reply (critnib_get 1 s.critnib k), s)
call s (find k) = (reply (critnib_find_le 1 s.critnib k), s)

-- the replies, in order, and the last state
unfoldable pub run : State → List Call → List Reply × State
run s [] = ([], s)
run s (o ∷ calls) =
    let (r, s') = call s o in let (replies, last) = run s' calls in (r ∷ replies, last)

-- the abstract call: what a reply does to the mapping
abbrev pub step : Mapping → Call → Reply → Mapping
step m (insert k v) (status ok) = update m k (some v)
step m (insert k v) (status eexist) = m
step m (insert k v) (status enomem) = m
step m (insert k v) (pointer w) = m
step m (insert k v) stuck = m
step m (remove k) r = update m k none
step m (get k) r = m
step m (find k) r = m

-- the replies that the mapping allows
abbrev pub Allowed : Mapping → Call → Reply → Type 0
Allowed m (insert k v) (status ok) = m k ≡ none
Allowed m (insert k v) (status eexist) = (w : ℕ) × (m k ≡ some w)
Allowed m (insert k v) (status enomem) = Unit
Allowed m (insert k v) (pointer w) = ⊥
Allowed m (insert k v) stuck = ⊥
Allowed m (remove k) r = r ≡ pointer (value_or_null (m k))
Allowed m (get k) r = r ≡ pointer (value_or_null (m k))
Allowed m (find k) r = (v : ℕ) × (r ≡ pointer v) × MapFloor m k v

abbrev pub AllAllowed : Mapping → List Call → List Reply → Type 0
AllAllowed m [] [] = Unit
AllAllowed m [] (r ∷ replies) = ⊥
AllAllowed m (o ∷ calls) [] = ⊥
AllAllowed m (o ∷ calls) (r ∷ replies) = Allowed m o r × AllAllowed (step m o r) calls replies

abbrev pub steps : Mapping → List Call → List Reply → Mapping
steps m [] replies = m
steps m (o ∷ calls) [] = m
steps m (o ∷ calls) (r ∷ replies) = steps (step m o r) calls replies

-- keys are words, and NULL is inserted at key 0 only
abbrev pub IsCall : Call → Type 0
IsCall (insert k v) = (k < word) × (v ≡ 0 → k ≡ 0)
IsCall (remove k) = k < word
IsCall (get k) = k < word
IsCall (find k) = k < word

abbrev pub AreCalls : List Call → Type 0
AreCalls [] = Unit
AreCalls (o ∷ calls) = IsCall o × AreCalls calls
