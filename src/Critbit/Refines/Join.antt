-- ===== src/Critbit/Refines/Join.antt =====
-- The inner node that `critbit_insert` makes where the key leaves the path of a node.
use ptok.Base.{
  ℕ, ◌+◌, ◌-◌, ◌/◌, ◌%◌, ◌^◌, ◌<◌, bit_and, bit_xor, ◌≡◌, ◌≢◌, sym, ◌∙◌, ◌↔◌, ◌⊎◌, arith, true,
  false, ◌==◌, ==_ne, Bool-cases, eq-cases, inl, inr,
}
use ptok.Word.{word, negate}
use ptok.Word.Lowest.{Differ, lowest-Differ, bit_and_below}
use ptok.Word.Slices.{pow-pos}
use ptok.Critbit.{Node, leaf, fork}
use ptok.Critbit.Insert.{node_size, join}
use ptok.Critbit.Valid.{Holds, IsValid}
use ptok.Critbit.Bits.{side_iff'}

-- `n'` is `n` with one entry more.
pub record Adds (n : Node) (key v : ℕ) (n' : Node) : Type 0 where
  pub valid : IsValid n'
  pub entries : (k w : ℕ) → Holds n' k w ↔ (Holds n k w ⊎ ((k ≡ key) × (w ≡ v)))

-- what the entries below `n` share with its path, up to the bit where the key parts from it
abbrev pub Shares : Node → (path i : ℕ) → Type 0
Shares n path i =
    (k w : ℕ) → Holds n k w → (k % 2 ^ i ≡ path % 2 ^ i) × (k / 2 ^ i % 2 ≡ path / 2 ^ i % 2)

module _ (a key v path : ℕ) (n : Node) (h : key < word) (valid : IsValid n) (at : ℕ)
    (d : Differ path key at 64) (shares : Shares n path d.index) where
  new_path : ℕ
  new_path = bit_and key (at - 1)

  new_path_lem : new_path ≡ key % 2 ^ d.index
  unfolding new_path
  new_path_lem = rw d.bit (bit_and_below d.index key)

  new_path-fits : new_path < 2 ^ d.index
  new_path-fits = omega (arith, new_path_lem, pow-pos d.index)

  new-left :
      key / 2 ^ d.index % 2 ≡ 0 → Adds n key v (fork (a + node_size) new_path at (leaf a key v) n)
  new-left e = record {
    valid = (
      record {
        index = d.index;
        bound = d.bound;
        one_bit = d.bit;
        fits = new_path-fits;
        left_side = λ k w m. rw (sym m.0) (sym new_path_lem, e);
        right_side = λ k w m. (
          (shares k w m).0 ∙ d.below ∙ sym new_path_lem,
          omega (arith, (shares k w m).1, d.apart),
        );
      },
      h,
      valid,
    );
    entries = λ k w. (
      λ m. elim m [ inl new ↦ inr (sym new.0, sym new.1) | inr old ↦ inl old ],
      λ m. elim m [ inl old ↦ inr old | inr new ↦ inl (sym new.0, sym new.1) ],
    );
  }

  new-right :
      key / 2 ^ d.index % 2 ≡ 1 → Adds n key v (fork (a + node_size) new_path at n (leaf a key v))
  new-right e = record {
    valid = (
      record {
        index = d.index;
        bound = d.bound;
        one_bit = d.bit;
        fits = new_path-fits;
        left_side = λ k w m. (
          (shares k w m).0 ∙ d.below ∙ sym new_path_lem,
          omega (arith, (shares k w m).1, d.apart),
        );
        right_side = λ k w m. rw (sym m.0) (sym new_path_lem, e);
      },
      valid,
      h,
    );
    entries = λ k w. (
      λ m. elim m [ inl old ↦ inl old | inr new ↦ inr (sym new.0, sym new.1) ],
      λ m. elim m [ inl old ↦ inl old | inr new ↦ inr (sym new.0, sym new.1) ],
    );
  }

-- the new node, for a key that is not the path
pub join-Adds :
    (a key v path : ℕ) (n : Node)
    → key < word
    → path < word
    → IsValid n
    → path ≢ key
    → ((d : Differ path key (bit_and (bit_xor path key) (negate (bit_xor path key))) 64)
        → Shares n path d.index)
    → Adds n key v (join a key v path n)
unfolding join new_path
join-Adds a key v path n h p valid ne shares =
    let at = bit_and (bit_xor path key) (negate (bit_xor path key)) in
    let d = lowest-Differ path key p h ne in
    let some_bit : (at == 0) ≡ false = ==_ne at 0 (omega (arith, d.bit, pow-pos d.index)) in
    let side : ((bit_and key at == 0) ≡ true) ↔ (key / 2 ^ d.index % 2 ≡ 0) =
      rw d.bit (side_iff' d.index key) in
    elim (Bool-cases (bit_and key at == 0)) [
      | inl e ↦ rw (some_bit, e) (new-left a key v path n h valid at d (shares d) (side.0 e))
      | inr e ↦
          rw (some_bit, e)
            (new-right a key v path n h valid at d (shares d)
              (elim (eq-cases (key / 2 ^ d.index % 2) 0) [
                | inl zero ↦ absurd (cc (side.1 zero))
                | inr other ↦ omega arith
              ]))
    ]
