-- ===== src/Critnib/Shared/Undisturbed.antt =====
-- `critnib_get`, load by load, among stores that leave the tree alone: those to memory that is not
-- in the tree, as of writers that fail, and those to `remove_count`, which a remove of a key that
-- is not there advances.
use ptok.Base.{
  ℕ, zero, suc, ◌+◌, ◌%◌, ◌≤◌, ◌<◌, ◌≡◌, refl, sym, ap, ◌∙◌, inl, inr, Bool-cases, leb, ◌==◌, List,
  [], ◌∷◌,
}
use mathlib.Core.Path.{subst}
use ptok.Word.{word}
use ptok.Critnib.Tree.{Tree, deleted_life}
use ptok.Critnib.Find.{get_walk}
use ptok.Critnib.Owned.{in_tree}
use ptok.Critnib.Shared.{
  Pointer, nil, to_leaf, to_node, Cell, Memory, Reader, start, counted, diving, matched, checking,
  returned, load, loads, interleave, pointer, Shows, Reaches,
}
use ptok.Critnib.Shared.Rounds.{Gets, Gets-trans, Gets-one, dive-Gets, start-Gets}
use ptok.Critnib.Shared.Reads.{Finds, nil-Finds, leaf-Finds, node-Finds, found_match, found_other}
use ptok.Critnib.Shared.Dives.{Shows-Reach, Reaches-elsewhere, Shows-elsewhere}

-- memory with the tree at `c->root`
pub record Carries (t : Tree) (m : Memory) : Type 0 where
  pub root : m.root ≡ pointer t
  pub shows : Shows m.cell t

-- a change of memory that leaves the tree alone
pub record Stays (t : Tree) (m m' : Memory) : Type 0 where
  pub grows : m.remove_count ≤ m'.remove_count
  pub root : m'.root ≡ m.root
  pub same : (x : ℕ) → 1 ≤ in_tree x t → m'.cell x ≡ m.cell x

-- a sequence of such changes, in which 16 can be added to `remove_count` without a wrap
abbrev pub AllStay : Tree → Memory → List Memory → Type 0
AllStay t m [] = m.remove_count + deleted_life < word
AllStay t m (m' ∷ ms) = Stays t m m' × AllStay t m' ms

abbrev pub last : Memory → List Memory → Memory
last m [] = m
last m (m' ∷ ms) = last m' ms

module _ (key : ℕ) (t : Tree) where
  -- what the reader may rely on, and what it should return
  abbrev InTree : ℕ → ℕ → Type 0
  InTree s x = 1 ≤ in_tree x t

  abbrev Right : ℕ → Type 0
  Right r = r ≡ get_walk key t

  Carries-Finds : (m : Memory) → Carries t m → (s : ℕ) → Finds key Right m.cell (InTree s) m.root
  Carries-Finds m c s = (
    get_walk key t,
    subst (λ p. (f : ℕ) × Reaches f m.cell (InTree s) key p (get_walk key t)) (sym c.root)
        (Shows-Reach m.cell (InTree s) key t c.shows (λ x q. q)),
    refl,
  )

  -- what is known of a reader: a dive that goes on undisturbed finds what it should
  abbrev Good : Memory → Reader → Type 0
  Good m start = Unit
  Good m (counted s) = Unit
  Good m (diving s p) = Finds key Right m.cell (InTree s) p
  Good m (matched s a) = InTree s a × Right (m.cell a).value
  Good m (checking s r) = Right r
  Good m (returned r) = Right r

  store-Good : (m m' : Memory) → Stays t m m' → (r : Reader) → Good m r → Good m' r
  store-Good m m' st start g = tt
  store-Good m m' st (counted s) g = tt
  store-Good m m' st (diving s p) (v, (f, d), right) = (
    v,
    (
      f,
      Reaches-elsewhere f m.cell m'.cell (InTree s) (InTree s) key p v (λ x l. (l, st.same x l)) d,
    ),
    right,
  )
  store-Good m m' st (matched s a) (l, right) = (l, ap Cell.value (st.same a l) ∙ right)
  store-Good m m' st (checking s r) g = g
  store-Good m m' st (returned r) g = g

  module _ (m : Memory) (c : Carries t m) where
    load-Good : (r : Reader) → Good m r → Good m (load key m r)
    unfolding load
    load-Good start g = tt
    load-Good (counted s) g = Carries-Finds m c s
    load-Good (diving s nil) g = nil-Finds key Right m InTree s g
    load-Good (diving s (to_leaf a)) g =
        let (l, right) = leaf-Finds key Right m InTree s a g in
        elim (Bool-cases ((m.cell a).key == key)) [
          | inl e ↦ rw e (l, sym (found_match key Right m InTree a e) ∙ right)
          | inr e ↦ rw e (sym (found_other key Right m InTree a e) ∙ right)
        ]
    load-Good (diving s (to_node a)) g = node-Finds key Right m InTree s a g
    load-Good (matched s a) g = g.1
    load-Good (checking s r) g =
        elim (Bool-cases (leb ((s + deleted_life) % word) m.remove_count)) [
          | inl e ↦ rw e tt
          | inr e ↦ rw e g
        ]
    load-Good (returned r) g = g

    loads-Good : (n : ℕ) (r : Reader) → Good m r → Good m (loads key n m r)
    unfolding loads
    loads-Good zero r g = g
    loads-Good (suc n) r g = loads-Good n (load key m r) (load-Good r g)

  Stays-Carries : (m m' : Memory) → Stays t m m' → Carries t m → Carries t m'
  Stays-Carries m m' st c = record {
    root = st.root ∙ c.root;
    shows = Shows-elsewhere m.cell m'.cell t st.same c.shows;
  }

  AllStay-Carries :
      (m : Memory) (ms : List Memory) → AllStay t m ms → Carries t m → Carries t (last m ms)
  AllStay-Carries m [] h c = c
  AllStay-Carries m (m' ∷ ms) h c = AllStay-Carries m' ms h.1 (Stays-Carries m m' h.0 c)

  AllStay-last :
      (m : Memory) (ms : List Memory)
      → AllStay t m ms
      → (last m ms).remove_count + deleted_life < word
  AllStay-last m [] h = h
  AllStay-last m (m' ∷ ms) h = AllStay-last m' ms h.1

  -- a reader that makes no load
  waits-Good :
      (m : Memory) (ms : List Memory) (r : Reader) → AllStay t m ms → Good m r → Good (last m ms) r
  waits-Good m [] r h g = g
  waits-Good m (m' ∷ ms) r h g = waits-Good m' ms r h.1 (store-Good m m' h.0 r g)

  interleave-Good :
      (ns : List ℕ) (m : Memory) (ms : List Memory) (r : Reader)
      → AllStay t m ms
      → Carries t m
      → Good m r
      → Good (last m ms) (interleave key ns (m ∷ ms) r)
  unfolding interleave
  interleave-Good [] m ms r h c g = waits-Good m ms r h g
  interleave-Good (n ∷ ns) m [] r h c g = loads-Good m c n r g
  interleave-Good (n ∷ ns) m (m' ∷ ms) r h c g =
      interleave-Good ns m' ms (loads key n m r) h.1 (Stays-Carries m m' h.0 c)
        (store-Good m m' h.0 (loads key n m r) (loads-Good m c n r g))

  module _ (m : Memory) (c : Carries t m) (no_wrap : m.remove_count + deleted_life < word) where
    abbrev Ends : Reader → Type 0
    Ends r = (v : ℕ) × Gets key m r (returned v)

    then-Ends : (r r' : Reader) → Gets key m r r' → Ends r' → Ends r
    then-Ends r r' g (v, e) = (v, Gets-trans key m r r' (returned v) g e)

    start-Ends : Ends start
    start-Ends =
        let (r, (f, d), right) = Carries-Finds m c 0 in start-Gets key m (InTree 0) r f d no_wrap

    checking-Ends : (s v : ℕ) → Ends (checking s v)
    unfolding load
    checking-Ends s v = elim (Bool-cases (leb ((s + deleted_life) % word) m.remove_count)) [
      | inl e ↦
          then-Ends (checking s v) start (Gets-one key m (checking s v) start (rw e refl))
            start-Ends
      | inr e ↦ (v, Gets-one key m (checking s v) (returned v) (rw e refl))
    ]

    diving-Ends : (s : ℕ) (p : Pointer) → Finds key Right m.cell (InTree s) p → Ends (diving s p)
    diving-Ends s p (r, (f, d), right) =
        let (v, g) = dive-Gets key m f (InTree s) s p r d in
        then-Ends (diving s p) (checking s v) g (checking-Ends s v)

    -- wherever the reader stands, it returns
    Good-Ends : (r : Reader) → Good m r → Ends r
    unfolding load loads
    Good-Ends start g = start-Ends
    Good-Ends (counted s) g =
        then-Ends (counted s) (diving s m.root) (Gets-one key m (counted s) (diving s m.root) refl)
          (diving-Ends s m.root (Carries-Finds m c s))
    Good-Ends (diving s p) g = diving-Ends s p g
    Good-Ends (matched s a) g =
        then-Ends (matched s a) (checking s (m.cell a).value)
          (Gets-one key m (matched s a) (checking s (m.cell a).value) refl)
          (checking-Ends s (m.cell a).value)
    Good-Ends (checking s v) g = checking-Ends s v
    Good-Ends (returned v) g = (v, (0, refl))

    Good-returned :
        (r : Reader) → Good m r → (n : ℕ) × (loads key n m r ≡ returned (get_walk key t))
    Good-returned r g =
        let (v, (n, e)) = Good-Ends r g in
        let right : Right v = subst (Good m) e (loads-Good m c n r g) in (n, e ∙ ap returned right)

-- Let memory carry a tree and then change, store by store, without a change at the tree's addresses
-- or to `c->root`, where `remove_count` may grow, and in the last state `remove_count + 16` does not
-- wrap. A reader of `critnib_get` without the mutex, that starts in the first state and makes any
-- number of loads in each, returns after finitely many more loads in the last, and returns what the
-- walk of `critnib_get` finds in the tree.
pub interleave-get_walk :
    (key : ℕ) (t : Tree) (ns : List ℕ) (m : Memory) (ms : List Memory)
    → Carries t m
    → AllStay t m ms
    → (n : ℕ) × (loads key n (last m ms) (interleave key ns (m ∷ ms) start)
        ≡ returned (get_walk key t))
interleave-get_walk key t ns m ms c h =
    Good-returned key t (last m ms) (AllStay-Carries key t m ms h c) (AllStay-last key t m ms h)
      (interleave key ns (m ∷ ms) start) (interleave-Good key t ns m ms start h c tt)
