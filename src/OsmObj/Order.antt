-- ===== src/OsmObj/Order.antt =====
-- The order of osmobj, and sorting. Any sort returns such a list; the model sorts by insertion.
use mathlib.Core.List.{Perm}
use mathlib.Core.List.Perm
use osmdbt.Common.{
  ◌≡◌, refl, Bool, true, false, ◌&&◌, ◌||◌, List, [], ◌∷◌, arith, ltb, ◌==◌, if◌then◌else◌, Bytes,
  All, Bool-cases, inl, inr, ◌⊎◌, ◌<◌, ◌≤◌, ltb_ℤ, eqb_ℤ_iff,
}
use osmdbt.Osm.{Osmium}
use osmdbt.OsmObj.{OsmObj, OsmObjects, obj_ltb, obj_gtb, obj_leb, obj_geb}

-- What std::sort asks of an order: irreflexive, transitive, and so is "neither is less".
pub record IsStrictWeak {A : Type 0} (less : A → A → Bool) : Type 0 where
  pub irrefl : (a : A) → less a a ≡ false
  pub trans : (a b c : A) → less a b ≡ true → less b c ≡ true → less a c ≡ true
  pub not_less_trans : (a b c : A) → less b a ≡ false → less c b ≡ false → less c a ≡ false

module _ {A : Type 0} (less : A → A → Bool) where
  unfoldable pub insert : A → List A → List A
  insert x [] = x ∷ []
  insert x (y ∷ ys) = if less x y then x ∷ y ∷ ys else y ∷ insert x ys

  unfoldable pub sort : List A → List A
  unfolding insert
  sort [] = []
  sort (x ∷ xs) = insert x (sort xs)

  -- No element is less than one before it.
  abbrev pub IsSorted : List A → Type 0
  IsSorted [] = Unit
  IsSorted (x ∷ xs) = All (λ y. less y x ≡ false) xs × IsSorted xs

  insert-perm : (x : A) (xs : List A) → Perm (insert x xs) (x ∷ xs)
  unfolding insert
  insert-perm x [] = Perm.refl (x ∷ [])
  insert-perm x (y ∷ ys) = elim (Bool-cases (less x y)) [
    | inl e ↦ rw e (Perm.refl (x ∷ y ∷ ys))
    | inr e ↦ rw e (Perm.trans (Perm.cons y (insert-perm x ys)) (Perm.swap x y ys))
  ]

  pub sort-perm : (xs : List A) → Perm (sort xs) xs
  unfolding sort
  sort-perm [] = Perm.refl []
  sort-perm (x ∷ xs) = Perm.trans (insert-perm x (sort xs)) (Perm.cons x (sort-perm xs))

  insert-All : (P : A → Type 0) (x : A) (xs : List A) → P x → All P xs → All P (insert x xs)
  unfolding insert
  insert-All P x [] px h = (px, tt)
  insert-All P x (y ∷ ys) px h = elim (Bool-cases (less x y)) [
    | inl e ↦ rw e (px, h)
    | inr e ↦ rw e (h.0, insert-All P x ys px h.1)
  ]

  insert-cons : (x : A) (xs : List A) → (y : A) × (ys : List A) × (insert x xs ≡ y ∷ ys)
  unfolding insert
  insert-cons x [] = (x, [], refl)
  insert-cons x (y ∷ ys) = elim (Bool-cases (less x y)) [
    | inl e ↦ (x, y ∷ ys, rw e)
    | inr e ↦ (y, insert x ys, rw e)
  ]

  -- Something to sort is not sorted away.
  pub sort-cons : (x : A) (xs : List A) → (y : A) × (ys : List A) × (sort (x ∷ xs) ≡ y ∷ ys)
  unfolding sort
  sort-cons x xs = insert-cons x (sort xs)

  pub sort-All : (P : A → Type 0) (xs : List A) → All P xs → All P (sort xs)
  unfolding sort
  sort-All P [] h = tt
  sort-All P (x ∷ xs) h = insert-All P x (sort xs) h.0 (sort-All P xs h.1)

  module _ (order : IsStrictWeak less) where
    not_less : (a b : A) → less a b ≡ true → less b a ≡ false
    not_less a b h = elim (Bool-cases (less b a)) [ inl e ↦ absurd (clash e) | inr e ↦ e ]
      where
        clash : less b a ≡ true → ⊥
        clash e = cc (order.irrefl a, order.trans a b a h e)

    above :
        (x y : A) (ys : List A)
        → less y x ≡ false
        → All (λ z. less z y ≡ false) ys
        → All (λ z. less z x ≡ false) ys
    above x y [] h k = tt
    above x y (z ∷ ys) h k = (order.not_less_trans x y z h k.0, above x y ys h k.1)

    insert-IsSorted : (x : A) (xs : List A) → IsSorted xs → IsSorted (insert x xs)
    unfolding insert
    insert-IsSorted x [] s = (tt, tt)
    insert-IsSorted x (y ∷ ys) s = elim (Bool-cases (less x y)) [
      | inl e ↦ let ne = not_less x y e in rw e ((ne, above x y ys ne s.0), s)
      | inr e ↦ rw e (insert-All _ x ys e s.0, insert-IsSorted x ys s.1)
    ]

    pub sort-IsSorted : (xs : List A) → IsSorted (sort xs)
    unfolding sort
    sort-IsSorted [] = tt
    sort-IsSorted (x ∷ xs) = insert-IsSorted x (sort xs) (sort-IsSorted xs)

-- `operator<` on std::string
bytes_ltb : Bytes → Bytes → Bool
bytes_ltb [] [] = false
bytes_ltb [] (b ∷ t) = true
bytes_ltb (a ∷ s) [] = false
bytes_ltb (a ∷ s) (b ∷ t) = ltb a b || (a == b && bytes_ltb s t)

-- `std::ranges::sort(log_files)`
unfoldable pub sort_names : List Bytes → List Bytes
unfolding sort bytes_ltb
sort_names names = sort bytes_ltb names

-- osmobjects::sort
pub sort_objects : Osmium → OsmObjects → OsmObjects
sort_objects osm o = record {
  nodes = sort (obj_ltb osm) o.nodes;
  ways = sort (obj_ltb osm) o.ways;
  relations = sort (obj_ltb osm) o.relations;
}

module _ (osm : Osmium) where
  -- operator< of osmobj is irreflexive and transitive, and so is incomparability with it: it is an order that
  -- std::sort may be called with.
  pub obj_ltb-IsStrictWeak : IsStrictWeak (obj_ltb osm)
  unfolding obj_ltb
  obj_ltb-IsStrictWeak = record {
    irrefl = λ a. ground arith;
    trans = λ a b c h k. ground arith;
    not_less_trans = λ a b c h k. ground arith;
  }

  -- The other three operators agree with `<`: `a > b` is `b < a`, and `<=` and `>=` are the negations.
  pub obj_operators :
      (a b : OsmObj)
      → (obj_gtb osm a b ≡ obj_ltb osm b a)
        × (obj_leb osm a b ≡ (if obj_ltb osm b a then false else true))
        × (obj_geb osm a b ≡ (if obj_ltb osm a b then false else true))
  unfolding obj_ltb obj_gtb obj_leb obj_geb
  obj_operators a b = (ground arith, ground arith, ground arith)

  -- `a` may stand before `b`: it has a smaller type index, or the same and a smaller id, or the same of both and
  -- a version that is not greater.
  abbrev pub MayPrecede : OsmObj → OsmObj → Type 0
  MayPrecede a b =
      (osm.item_type_to_nwr_index a.type < osm.item_type_to_nwr_index b.type)
      ⊎ ((osm.item_type_to_nwr_index a.type ≡ osm.item_type_to_nwr_index b.type)
          × ((ltb_ℤ a.id b.id ≡ true) ⊎ ((a.id ≡ b.id) × (a.version ≤ b.version))))

  abbrev pub InOrder : List OsmObj → Type 0
  InOrder [] = Unit
  InOrder (x ∷ xs) = All (MayPrecede x) xs × InOrder xs

  not_less-MayPrecede : (a b : OsmObj) → obj_ltb osm b a ≡ false → MayPrecede a b
  unfolding obj_ltb
  not_less-MayPrecede a b h = ground (arith, eqb_ℤ_iff b.id a.id)

  All-MayPrecede :
      (x : OsmObj) (xs : List OsmObj)
      → All (λ y. obj_ltb osm y x ≡ false) xs
      → All (MayPrecede x) xs
  All-MayPrecede x [] h = tt
  All-MayPrecede x (y ∷ ys) h = (not_less-MayPrecede x y h.0, All-MayPrecede x ys h.1)

  IsSorted-InOrder : (xs : List OsmObj) → IsSorted (obj_ltb osm) xs → InOrder xs
  IsSorted-InOrder [] h = tt
  IsSorted-InOrder (x ∷ xs) h = (All-MayPrecede x xs h.0, IsSorted-InOrder xs h.1)

  -- osmobjects::sort leaves each of the three lists a permutation of what it was, in which each object may
  -- precede all that follow it: its type index is smaller, or the same and its id is smaller, or both are the
  -- same and its version is not greater.
  pub sort_objects_lem :
      (o : OsmObjects)
      → (Perm (sort_objects osm o).nodes o.nodes × InOrder (sort_objects osm o).nodes)
        × (Perm (sort_objects osm o).ways o.ways × InOrder (sort_objects osm o).ways)
        × (Perm (sort_objects osm o).relations o.relations × InOrder (sort_objects osm o).relations)
  unfolding sort_objects
  sort_objects_lem o = (sorted o.nodes, sorted o.ways, sorted o.relations)
    where
      sorted :
          (xs : List OsmObj) → Perm (sort (obj_ltb osm) xs) xs × InOrder (sort (obj_ltb osm) xs)
      sorted xs = (
        sort-perm (obj_ltb osm) xs,
        IsSorted-InOrder _ (sort-IsSorted (obj_ltb osm) obj_ltb-IsStrictWeak xs),
      )
