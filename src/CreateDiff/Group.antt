-- ===== src/CreateDiff/Group.antt =====
-- The loop that add_tags, add_way_nodes and add_members share: it takes rows from the cursor as long
-- as they belong to one object version.
use osmdbt.Common.{
  ◌≡◌, refl, ap, true, false, List, [], ◌∷◌, arith, if◌then◌else◌, All, Bool-cases, inl, inr,
}
use osmdbt.CreateDiff.Key.{
  Key, key_eqb, key_ltb, key_eqb→eq, key_ltb_ne, key_total, key_ltb_le_trans, IsOrdered,
}

module _ {A : Type 0} (owner : A → Key) where
  -- The rows taken, and the cursor after them.
  unfoldable pub take_group : Key → List A → List A × List A
  take_group k [] = ([], [])
  take_group k (a ∷ it) =
      let (taken, rest) = take_group k it in
      if key_eqb (owner a) k then (a ∷ taken, rest) else ([], a ∷ it)

  -- All rows of one object version, wherever they stand.
  pub owned : Key → List A → List A
  owned k [] = []
  owned k (a ∷ it) = if key_eqb (owner a) k then a ∷ owned k it else owned k it

  abbrev pub After : Key → List A → Type 0
  After k = All (λ a. key_ltb k (owner a) ≡ true)

  abbrev pub NotBefore : Key → List A → Type 0
  NotBefore k = All (λ a. key_ltb (owner a) k ≡ false)

  owned_of_After : (k : Key) (it : List A) → After k it → owned k it ≡ []
  unfolding owned
  owned_of_After k [] h = refl
  owned_of_After k (a ∷ it) h = ground (arith, owned_of_After k it h.1, key_ltb_ne k (owner a) h.0)

  take_group_of_After : (k : Key) (it : List A) → After k it → take_group k it ≡ ([], it)
  unfolding take_group
  take_group_of_After k [] h = refl
  take_group_of_After k (a ∷ it) h = ground (arith, key_ltb_ne k (owner a) h.0)

  After_of_ordered :
      (k : Key) (a : A) (it : List A)
      → key_ltb k (owner a) ≡ true
      → All (λ y. key_ltb (owner y) (owner a) ≡ false) it
      → After k it
  After_of_ordered k a [] h p = tt
  After_of_ordered k a (b ∷ it) h p =
      (key_ltb_le_trans k (owner a) (owner b) h p.0, After_of_ordered k a it h p.1)

  -- On an ordered cursor that starts at `k` or later, one call takes exactly the rows of `k`; what is
  -- left is ordered, comes after `k`, and holds the rows of every other key.
  pub record Takes (k : Key) (it : List A) : Type 0 where
    pub taken : (take_group k it).0 ≡ owned k it
    pub after : After k (take_group k it).1
    pub ordered : IsOrdered owner (take_group k it).1
    pub others : (j : Key) → key_eqb k j ≡ false → owned j (take_group k it).1 ≡ owned j it

  -- The loop's step on a row of `k`, and its end on a row of another key.
  take_group_own :
      (k : Key) (a : A) (it : List A)
      → key_eqb (owner a) k ≡ true
      → take_group k (a ∷ it) ≡ (a ∷ (take_group k it).0, (take_group k it).1)
  unfolding take_group
  take_group_own k a it e = rw e

  pub take_group_other :
      (k : Key) (a : A) (it : List A)
      → key_eqb (owner a) k ≡ false
      → take_group k (a ∷ it) ≡ ([], a ∷ it)
  unfolding take_group
  take_group_other k a it e = rw e

  Takes-own :
      (k : Key) (a : A) (it : List A) → key_eqb (owner a) k ≡ true → Takes k it → Takes k (a ∷ it)
  unfolding owned
  Takes-own k a it e t = record {
    taken = rw (take_group_own k a it e, e) (ap (◌∷◌ a) t.taken);
    after = rw (take_group_own k a it e) t.after;
    ordered = rw (take_group_own k a it e) t.ordered;
    others = λ j ne. rw (take_group_own k a it e, other j ne) (t.others j ne);
  }
    where
      other : (j : Key) → key_eqb k j ≡ false → key_eqb (owner a) j ≡ false
      other j ne = rw (key_eqb→eq (owner a) k e) ne

  Takes-other :
      (k : Key) (it : List A)
      → take_group k it ≡ ([], it)
      → After k it
      → IsOrdered owner it
      → Takes k it
  Takes-other k it e h o = record {
    taken = rw (e, owned_of_After k it h);
    after = rw e h;
    ordered = rw e o;
    others = λ j ne. rw e;
  }

  pub take_group-Takes : (k : Key) (it : List A) → IsOrdered owner it → NotBefore k it → Takes k it
  take_group-Takes k [] o n =
      unfold take_group owned in
      record { taken = refl; after = tt; ordered = tt; others = λ j e. refl }
  take_group-Takes k (a ∷ it) o n = elim (Bool-cases (key_eqb (owner a) k)) [
    | inl same ↦ Takes-own k a it same (take_group-Takes k it o.1 n.1)
    | inr other ↦
        let lt = key_total k (owner a) n.0 other in
        let all_after : After k (a ∷ it) = (lt, After_of_ordered k a it lt o.0) in
        Takes-other k (a ∷ it) (take_group_other k a it other) all_after o
  ]
