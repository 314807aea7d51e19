-- ===== src/Critbit/Refines/Remove.antt =====
-- `critbit_remove` against the abstract view.
use ptok.Base.{
  ℕ, bit_and, ◌≡◌, ◌≢◌, refl, sym, ap, ◌∙◌, ◌↔◌, ◌⊎◌, true, false, ◌==◌, ==_iff, Bool-cases, inl,
  inr, Option, none, some, Option-cases,
}
use mathlib.Core.Path.{subst}
use ptok.Mapping.{Mapping, update, value_or_null, none_of_absent, Agrees, Agrees-drop}
use ptok.Critbit.{Node, leaf, fork, Critbit, free_node}
use ptok.Critbit.Remove.{
  Unlinked, missing, here, unlinked, after_child, remove_walk, Removed, finish_remove,
  critbit_remove,
}
use ptok.Critbit.Valid.{Holds, IsValid, HoldsRoot, IsValidRoot, Represents}
use ptok.Critbit.Refines.Get.{goes_left, goes_right}

-- `n'` is `n` without the entry of `key`.
record Lacks (n : Node) (key v : ℕ) (n' : Node) : Type 0 where
  pub valid : IsValid n'
  pub held : Holds n key v
  pub entries : (k w : ℕ) → Holds n' k w ↔ (Holds n k w × (k ≢ key))

abbrev Drops : Node → (key : ℕ) → Unlinked → Type 0
Drops n key missing = (w : ℕ) → ¬ Holds n key w
Drops n key (here k v) = (j w : ℕ) → Holds n j w ↔ ((key ≡ j) × (v ≡ w))
Drops n key (unlinked k v n') = Lacks n key v n'

-- from one child to the node, whose other child does not have the key
module _ (n child other : Node) (key : ℕ) (relink : Node → Node)
    (parts : (k w : ℕ) → Holds n k w ↔ (Holds child k w ⊎ Holds other k w))
    (relinked : (t : Node) (k w : ℕ) → Holds (relink t) k w ↔ (Holds t k w ⊎ Holds other k w))
    (apart : (w : ℕ) → ¬ Holds other key w) (other_valid : IsValid other)
    (keeps : (t : Node)
      → IsValid t
      → ((k w : ℕ) → Holds t k w → Holds child k w)
      → IsValid (relink t)) where
  other_key : (k w : ℕ) → Holds other k w → k ≢ key
  other_key k w m e = apart w (subst (λ x. Holds other x w) e m)

  after_child-Drops : (r : Unlinked) → Drops child key r → Drops n key (after_child relink other r)
  after_child-Drops missing d =
      λ w m. elim ((parts key w).0 m) [ inl x ↦ d w x | inr x ↦ apart w x ]
  after_child-Drops (here k v) d = record {
    valid = other_valid;
    held = (parts key v).1 (inl ((d key v).1 (refl, refl)));
    entries = λ j w. (
      λ m. ((parts j w).1 (inr m), other_key j w m),
      λ m. elim ((parts j w).0 m.0) [ inl x ↦ absurd (m.1 (sym ((d j w).0 x).0)) | inr x ↦ x ],
    );
  }
  after_child-Drops (unlinked k v t) d = record {
    valid = keeps t d.valid (λ j w m. ((d.entries j w).0 m).0);
    held = (parts key v).1 (inl d.held);
    entries = λ j w. (
      λ m. elim ((relinked t j w).0 m) [
        | inl x ↦ ((parts j w).1 (inl ((d.entries j w).0 x).0), ((d.entries j w).0 x).1)
        | inr x ↦ ((parts j w).1 (inr x), other_key j w x)
      ],
      λ m. elim ((parts j w).0 m.0) [
        | inl x ↦ (relinked t j w).1 (inl ((d.entries j w).1 (x, m.1)))
        | inr x ↦ (relinked t j w).1 (inr x)
      ],
    );
  }

⊎-swap : {A B : Type 0} → (A ⊎ B) → (B ⊎ A)
⊎-swap (inl a) = inr a
⊎-swap (inr b) = inl b

module _ (a path bit : ℕ) (left right : Node) (key : ℕ)
    (valid : IsValid (fork a path bit left right)) where
  left-Drops :
      (bit_and bit key == 0) ≡ true
      → (r : Unlinked) → Drops left key r
      → Drops (fork a path bit left right) key (after_child (λ n. fork a path bit n right) right r)
  left-Drops e =
      after_child-Drops (fork a path bit left right) left right key (λ n. fork a path bit n right)
        (λ k w. (λ m. m, λ m. m)) (λ t k w. (λ m. m, λ m. m))
        (λ w m. cc (goes_right path bit left right valid.0 key w m)) valid.2
        (λ t fits below. (
          record {
            index = valid.0.index;
            bound = valid.0.bound;
            one_bit = valid.0.one_bit;
            fits = valid.0.fits;
            left_side = λ k w m. valid.0.left_side k w (below k w m);
            right_side = valid.0.right_side;
          },
          fits,
          valid.2,
        ))

  right-Drops :
      (bit_and bit key == 0) ≡ false
      → (r : Unlinked) → Drops right key r
      → Drops (fork a path bit left right) key (after_child (λ n. fork a path bit left n) left r)
  right-Drops e =
      after_child-Drops (fork a path bit left right) right left key (λ n. fork a path bit left n)
        (λ k w. (⊎-swap, ⊎-swap)) (λ t k w. (⊎-swap, ⊎-swap))
        (λ w m. cc (goes_left path bit left right valid.0 key w m)) valid.1
        (λ t fits below. (
          record {
            index = valid.0.index;
            bound = valid.0.bound;
            one_bit = valid.0.one_bit;
            fits = valid.0.fits;
            left_side = valid.0.left_side;
            right_side = λ k w m. valid.0.right_side k w (below k w m);
          },
          valid.1,
          fits,
        ))

-- The walk takes out the entry of the key and no other.
remove_walk-Drops : (key : ℕ) (n : Node) → IsValid n → Drops n key (remove_walk key n)
unfolding remove_walk
remove_walk-Drops key (leaf a path v) valid = elim (Bool-cases (path == key)) [
  | inl e ↦
      let same : path ≡ key = (==_iff path key).0 e in
      rw e (λ j w. (λ m. (sym same ∙ m.0, m.1), λ m. (same ∙ m.0, m.1)))
  | inr e ↦ rw e (λ w m. cc ((==_iff path key).1 m.0))
]
remove_walk-Drops key (fork a path bit left right) valid =
    let left' = remove_walk-Drops key left valid.1 in
    let right' = remove_walk-Drops key right valid.2 in
    elim (Bool-cases (bit_and bit key == 0)) [
      | inl e ↦ rw e (left-Drops a path bit left right key valid e (remove_walk key left) left')
      | inr e ↦ rw e (right-Drops a path bit left right key valid e (remove_walk key right) right')
    ]

-- returned the value and dropped the entry
abbrev pub RemoveOutcome : Mapping → (key : ℕ) → Removed → Type 0
RemoveOutcome m key r =
    (r.result ≡ value_or_null (m key)) × Represents r.critbit (update m key none)

module _ (c : Critbit) (m : Mapping) (key : ℕ) (rep : Represents c m) where
  absent-Outcome :
      ((w : ℕ) → ¬ HoldsRoot c.root key w)
      → RemoveOutcome m key (record { result = 0; critbit = c })
  absent-Outcome absent = (
    ap value_or_null (sym (none_of_absent (HoldsRoot c.root) m rep.agrees key absent)),
    record {
      valid = rep.valid;
      agrees = Agrees-drop (HoldsRoot c.root) m rep.agrees key (HoldsRoot c.root) (λ k w.
          (λ h. (h, λ same. absent w (subst (λ x. HoldsRoot c.root x w) same h)), λ h. h.0));
    },
  )

  finish_remove-Outcome :
      (n : Node)
      → c.root ≡ some n
      → (r : Unlinked) → Drops n key r
      → RemoveOutcome m key (finish_remove c r)
  unfolding finish_remove free_node
  finish_remove-Outcome n e r d =
      let agrees : Agrees (Holds n) m = subst (λ o. Agrees (HoldsRoot o) m) e rep.agrees in
      finish agrees r d
    where
      finish :
          Agrees (Holds n) m
          → (r : Unlinked) → Drops n key r
          → RemoveOutcome m key (finish_remove c r)
      finish agrees missing d = absent-Outcome (λ w h. d w (subst (λ o. HoldsRoot o key w) e h))
      finish agrees (here k v) d = (
        ap value_or_null (sym ((agrees key v).0 ((d key v).1 (refl, refl)))),
        record {
          valid = tt;
          agrees =
              Agrees-drop (Holds n) m agrees key (HoldsRoot none)
                (λ j w. (λ h. absurd h, λ h. absurd (h.1 (sym ((d j w).0 h.0).0))));
        },
      )
      finish agrees (unlinked k v t) d = (
        ap value_or_null (sym ((agrees key v).0 d.held)),
        record { valid = d.valid; agrees = Agrees-drop (Holds n) m agrees key (Holds t) d.entries },
      )

-- `critbit_remove` returns the value of the key (NULL if it has none) and leaves exactly the
-- other entries, in a well-formed tree.
pub critbit_remove-Outcome :
    (c : Critbit) (m : Mapping)
    → Represents c m
    → (key : ℕ) → RemoveOutcome m key (critbit_remove c key)
unfolding critbit_remove
critbit_remove-Outcome c m rep key = elim (Option-cases c.root) [
  | inl e ↦
      subst (λ o. RemoveOutcome m key (removed o)) (sym e)
        (absent-Outcome c m key rep (λ w h. subst (λ o. HoldsRoot o key w) e h))
  | inr (n, e) ↦
      subst (λ o. RemoveOutcome m key (removed o)) (sym e)
        (finish_remove-Outcome c m key rep n e (remove_walk key n)
          (remove_walk-Drops key n (subst IsValidRoot e rep.valid)))
]
  where
    removed : Option Node → Removed
    removed o = elim o [
      | none ↦ record { result = 0; critbit = c }
      | some n ↦ finish_remove c (remove_walk key n)
    ]
