-- ===== src/Hm.antt =====
-- hmproto.h and hmload.c: the interface that the four indexes share, a table of it, and the choice
-- of an index by number. The results of `Malloc` to come are part of the state of an index.
pub mod Table
pub mod Laws
use ptok.Base.{ℕ, Option, none, some, List, [], ◌∷◌}

abbrev pub Supply : Type 0
Supply = List (Option ℕ)

-- 0, EEXIST and ENOMEM
pub data Code : Type 0 where
  ok : Code
  eexist : Code
  enomem : Code

-- `hm_name`
pub data Name : Type 0 where
  critbit : Name
  tcradix : Name
  critnib : Name
  critnib_tag : Name

-- `struct hm`: `none` is a call that does not return. The number that `hm_new` takes is the address
-- that it returns; `hm_delete` gives the addresses that are freed.
pub record Hm : Type 1 where
  pub State : Type 0
  pub hm_new : (self : ℕ) → Supply → State
  pub hm_delete : State → List ℕ
  pub hm_insert : State → (key value : ℕ) → Option (Code × State)
  pub hm_remove : State → (key : ℕ) → Option (ℕ × State)
  pub hm_get : State → (key : ℕ) → Option ℕ
  pub hm_find_le : State → (key : ℕ) → Option ℕ
  pub hm_name : Name
  pub hm_immutable : ℕ
