-- ===== src/Hm/Laws.antt =====
-- What an index of hmproto.h promises, in words of the partial function from keys to values that it
-- holds. Calls use up a budget: it bounds the memory that they need and how often they remove.
pub mod Critbit
pub mod Critnib
pub mod CritnibTag
pub mod Tcradix
use ptok.Base.{ℕ, suc, ◌+◌, ◌*◌, ◌<◌, ◌≤◌, ◌≡◌, Option, none, some, List, [], ◌∷◌}
use ptok.Base.Arrays.{successes}
use ptok.Word.{word}
use ptok.Mapping.{Mapping, empty, update, value_or_null, MapFloor, NullAtZero}
use ptok.Hm.{Supply, Code, ok, eexist, Hm}

-- `Holds b c m`: the state holds `m`, and `b` more insertions and removals may follow.
pub record Obeys (x : Hm) : Type 1 where
  pub cost : ℕ
  pub Holds : (budget : ℕ) → x.State → Mapping → Type 0
  pub new :
      (b self : ℕ) (memory : Supply)
      → b * cost ≤ successes memory
      → b + 16 < word
      → Holds b (x.hm_new self memory) empty
  pub insert :
      (b : ℕ) (c : x.State) (m : Mapping) (key v : ℕ)
      → Holds (suc b) c m
      → key < word
      → m key ≡ none
      → (c' : x.State) × (x.hm_insert c key v ≡ some (ok, c')) × Holds b c' (update m key (some v))
  pub remove :
      (b : ℕ) (c : x.State) (m : Mapping) (key v : ℕ)
      → Holds (suc b) c m
      → key < word
      → m key ≡ some v
      → (c' : x.State) × (x.hm_remove c key ≡ some (v, c')) × Holds b c' (update m key none)
  pub get :
      (b : ℕ) (c : x.State) (m : Mapping) (key : ℕ)
      → Holds b c m
      → key < word
      → x.hm_get c key ≡ some (value_or_null (m key))

-- What the indexes without the bit 2 of `hm_immutable` promise beyond that: a key that has a value
-- keeps it, and `find_le`.
pub record ObeysFind (x : Hm) (o : Obeys x) : Type 1 where
  pub again :
      (b : ℕ) (c : x.State) (m : Mapping) (key v w : ℕ)
      → o.Holds (suc b) c m
      → key < word
      → m key ≡ some w
      → (c' : x.State) × (x.hm_insert c key v ≡ some (eexist, c')) × o.Holds b c' m
  pub find_le :
      (b : ℕ) (c : x.State) (m : Mapping) (key : ℕ)
      → o.Holds b c m
      → key < word
      → NullAtZero m
      → (v : ℕ) × (x.hm_find_le c key ≡ some v) × MapFloor m key v
