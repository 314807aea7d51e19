-- ===== src/Critnib/Mapping.antt =====
-- The abstract view of a critnib: a partial function from keys to values. `Represents c m` says
-- that the tree of `c` is well formed and holds exactly the entries of `m`.
use ptok.Base.{ℕ, ◌≡◌, ◌≢◌, ◌↔◌, none, some}
pub use ptok.Mapping.{Mapping, empty, update, value_or_null, MapFloor, no_key, greatest, NullAtZero}
use ptok.Mapping.{Agrees, Agrees-add, Agrees-drop}
use ptok.Mapping as View
use ptok.Critnib.Tree.{Tree, Critnib}
use ptok.Critnib.Valid.{Holds, IsValid}
use ptok.Critnib.Insert.Split.{Extends}
use ptok.Critnib.Find.Floor.{IsFloor, none_below, floor}

abbrev pub Reads : Tree → Mapping → Type 0
Reads t m = Agrees (Holds t) m

pub record Represents (c : Critnib) (m : Mapping) : Type 0 where
  pub valid : IsValid c.root
  pub reads : Reads c.root m

pub none_of_absent :
    (t : Tree) (m : Mapping) → Reads t m → (k : ℕ) → ((w : ℕ) → ¬ Holds t k w) → m k ≡ none
none_of_absent t m reads k = View.none_of_absent (Holds t) m reads k

-- One more leaf is one more entry.
pub Extends-Reads :
    (t : Tree) (m : Mapping) (key v : ℕ) (t' : Tree)
    → Reads t m
    → Extends t key v t'
    → Reads t' (update m key (some v))
Extends-Reads t m key v t' reads e =
    Agrees-add (Holds t) m reads key (Holds t') v e.absent e.entries

-- One entry less.
pub Reads-update-none :
    (t t' : Tree) (m : Mapping) (key : ℕ)
    → Reads t m
    → ((k w : ℕ) → Holds t' k w ↔ (Holds t k w × (k ≢ key)))
    → Reads t' (update m key none)
Reads-update-none t t' m key reads e = Agrees-drop (Holds t) m reads key (Holds t') e

pub MapFloor-of_tree :
    (t : Tree) (m : Mapping) (key v : ℕ) → Reads t m → IsFloor t key v → MapFloor m key v
MapFloor-of_tree t m key v reads (none_below h) = no_key (λ k w e. h k w ((reads k w).1 e))
MapFloor-of_tree t m key v reads (floor k w held low above) =
    greatest k w ((reads k w).0 held) low (λ j x e q. above j x ((reads j x).1 e) q)
