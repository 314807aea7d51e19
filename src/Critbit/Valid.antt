-- ===== src/Critbit/Valid.antt =====
-- What a well-formed critbit tree is, and what it holds.
use ptok.Base.{ℕ, ◌/◌, ◌%◌, ◌^◌, ◌<◌, ◌≡◌, ◌⊎◌, Option, none, some}
use ptok.Word.{word}
use ptok.Mapping.{Mapping, Agrees}
use ptok.Critbit.{Node, leaf, fork, Critbit}

abbrev pub Holds : Node → ℕ → ℕ → Type 0
Holds (leaf a path value) k v = (path ≡ k) × (value ≡ v)
Holds (fork a path bit left right) k v = Holds left k v ⊎ Holds right k v

-- `bit` is one bit, `path` what the keys below have in common under it, and it tells the sides
-- apart.
pub record IsFork (path bit : ℕ) (left right : Node) : Type 0 where
  pub index : ℕ
  pub bound : index < 64
  pub one_bit : bit ≡ 2 ^ index
  pub fits : path < 2 ^ index
  pub left_side : (k v : ℕ) → Holds left k v → (k % 2 ^ index ≡ path) × (k / 2 ^ index % 2 ≡ 0)
  pub right_side : (k v : ℕ) → Holds right k v → (k % 2 ^ index ≡ path) × (k / 2 ^ index % 2 ≡ 1)

abbrev pub IsValid : Node → Type 0
IsValid (leaf a path value) = path < word
IsValid (fork a path bit left right) = IsFork path bit left right × IsValid left × IsValid right

abbrev pub HoldsRoot : Option Node → ℕ → ℕ → Type 0
HoldsRoot none k v = ⊥
HoldsRoot (some n) k v = Holds n k v

abbrev pub IsValidRoot : Option Node → Type 0
IsValidRoot none = Unit
IsValidRoot (some n) = IsValid n

pub record Represents (c : Critbit) (m : Mapping) : Type 0 where
  pub valid : IsValidRoot c.root
  pub agrees : Agrees (HoldsRoot c.root) m
