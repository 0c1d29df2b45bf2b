-- ===== src/CreateDiff/Cursor.antt =====
-- A cursor over rows ordered by key, which object after object takes its rows from.
use osmdbt.Common.{◌≡◌, ◌∙◌, refl, true, false, List, [], ◌∷◌, arith, All, Bool-cases, inl, inr}
use osmdbt.CreateDiff.Key.{
  Key, key_eqb, key_ltb, key_eqb→eq, key_ltb_ne, key_ltb_ne_sym, key_ltb_asymm, IsAscending,
  IsOrdered, has_key, key_ltb_irrefl,
}
use osmdbt.CreateDiff.Group.{take_group, owned, After, NotBefore, Takes, take_group-Takes}

-- Coming after a key is not being before it, for the keys of an ascending list.
has_key_not_before :
    (k j : Key) (ks : List Key)
    → All (λ i. key_ltb k i ≡ true) ks
    → has_key j (k ∷ ks) ≡ true
    → key_ltb j k ≡ false
unfolding has_key
has_key_not_before k j [] h e = ground (arith, key_eqb→eq j k, key_ltb_irrefl k)
has_key_not_before k j (i ∷ ks) h e = ground (
  arith,
  key_eqb→eq j k,
  key_eqb→eq j i,
  key_ltb_irrefl k,
  key_ltb_asymm k i h.0,
  has_key_not_before k j ks h.1,
)

has_key_tail :
    (k j : Key) (ks : List Key)
    → key_ltb k j ≡ true
    → has_key j (k ∷ ks) ≡ true
    → has_key j ks ≡ true
unfolding has_key
has_key_tail k j ks h e = ground (arith, key_ltb_ne k j h)

module _ {A : Type 0} (owner : A → Key) where
  take_group-All :
      (P : A → Type 0) (k : Key) (it : List A) → All P it → All P (take_group owner k it).1
  unfolding take_group
  take_group-All P k [] h = tt
  take_group-All P k (a ∷ it) h = elim (Bool-cases (key_eqb (owner a) k)) [
    | inl e ↦ rw e (take_group-All P k it h.1)
    | inr e ↦ rw e h
  ]

  module _ (rows : List A) where
    -- What is left of `rows` when the objects with the keys `ks` are still to come: ordered, the rows of
    -- these objects, all of them.
    pub record Fits (ks : List Key) (it : List A) : Type 0 where
      pub ordered : IsOrdered owner it
      pub covered : All (λ a. has_key (owner a) ks ≡ true) it
      pub whole : All (λ k. owned owner k it ≡ owned owner k rows) ks

    not_before :
        (k : Key) (ks : List Key) (it : List A)
        → All (λ i. key_ltb k i ≡ true) ks
        → All (λ a. has_key (owner a) (k ∷ ks) ≡ true) it
        → NotBefore owner k it
    not_before k ks [] h c = tt
    not_before k ks (a ∷ it) h c =
        (has_key_not_before k (owner a) ks h c.0, not_before k ks it h c.1)

    covered_tail :
        (k : Key) (ks : List Key) (it : List A)
        → After owner k it
        → All (λ a. has_key (owner a) (k ∷ ks) ≡ true) it
        → All (λ a. has_key (owner a) ks ≡ true) it
    covered_tail k ks [] h c = tt
    covered_tail k ks (a ∷ it) h c =
        (has_key_tail k (owner a) ks h.0 c.0, covered_tail k ks it h.1 c.1)

    whole_tail :
        (k : Key) (ks : List Key) (it : List A)
        → Takes owner k it
        → All (λ i. key_ltb k i ≡ true) ks
        → All (λ j. owned owner j it ≡ owned owner j rows) ks
        → All (λ j. owned owner j (take_group owner k it).1 ≡ owned owner j rows) ks
    whole_tail k [] it t h w = tt
    whole_tail k (j ∷ ks) it t h w =
        (t.others j (key_ltb_ne_sym k j h.0) ∙ w.0, whole_tail k ks it t h.1 w.1)

    -- The next object takes all its rows and no others.
    pub take_group-Fits :
        (k : Key) (ks : List Key) (it : List A)
        → IsAscending (k ∷ ks)
        → Fits (k ∷ ks) it
        → ((take_group owner k it).0 ≡ owned owner k rows) × Fits ks (take_group owner k it).1
    take_group-Fits k ks it asc f =
        let t = take_group-Takes owner k it f.ordered (not_before k ks it asc.0 f.covered) in
        let below = take_group-All (λ a. has_key (owner a) (k ∷ ks) ≡ true) k it f.covered in
        (
          t.taken ∙ f.whole.0,
          record {
            ordered = t.ordered;
            covered = covered_tail k ks _ t.after below;
            whole = whole_tail k ks it t asc.0 f.whole.1;
          },
        )

    pub Fits-start :
        (ks : List Key)
        → IsOrdered owner rows
        → All (λ a. has_key (owner a) ks ≡ true) rows
        → Fits ks rows
    Fits-start ks o c = record { ordered = o; covered = c; whole = all_refl ks }
      where
        all_refl : (js : List Key) → All (λ k. owned owner k rows ≡ owned owner k rows) js
        all_refl [] = tt
        all_refl (j ∷ js) = (refl, all_refl js)
