-- ===== src/CreateDiff/Key.antt =====
-- The pair of an object id and a version, by which the queries of osmdbt-create-diff order their
-- rows, and lists of rows ordered by it.
use osmdbt.Common.{
  ℕ, ◌≡◌, Bool, true, false, ◌&&◌, ◌||◌, List, [], ◌∷◌, arith, ltb, ◌==◌, ℤ, ltb_ℤ, eqb_ℤ,
  eqb_ℤ_iff, All,
}

pub record Key : Type 0 where
  pub id : ℤ
  pub version : ℕ

unfoldable pub key_eqb : Key → Key → Bool
key_eqb a b = eqb_ℤ a.id b.id && a.version == b.version

-- `ORDER BY id, version`
unfoldable pub key_ltb : Key → Key → Bool
key_ltb a b = ltb_ℤ a.id b.id || (eqb_ℤ a.id b.id && ltb a.version b.version)

pub key_eqb→eq : (a b : Key) → key_eqb a b ≡ true → a ≡ b
unfolding key_eqb
key_eqb→eq a b h = ground (arith, eqb_ℤ_iff a.id b.id)

pub key_eqb_refl : (a : Key) → key_eqb a a ≡ true
unfolding key_eqb
key_eqb_refl a = ground arith

pub key_ltb_ne : (a b : Key) → key_ltb a b ≡ true → key_eqb b a ≡ false
unfolding key_ltb key_eqb
key_ltb_ne a b h = ground arith

pub key_ltb_ne_sym : (a b : Key) → key_ltb a b ≡ true → key_eqb a b ≡ false
unfolding key_ltb key_eqb
key_ltb_ne_sym a b h = ground arith

pub key_ltb_trans : (a b c : Key) → key_ltb a b ≡ true → key_ltb b c ≡ true → key_ltb a c ≡ true
unfolding key_ltb
key_ltb_trans a b c h k = ground arith

-- Not after, and not equal, is before.
pub key_total : (a b : Key) → key_ltb b a ≡ false → key_eqb b a ≡ false → key_ltb a b ≡ true
unfolding key_ltb key_eqb
key_total a b h k = ground arith

pub key_ltb_le_trans : (a b c : Key) → key_ltb a b ≡ true → key_ltb c b ≡ false → key_ltb a c ≡ true
unfolding key_ltb
key_ltb_le_trans a b c h k = ground arith

pub key_ltb_asymm : (a b : Key) → key_ltb a b ≡ true → key_ltb b a ≡ false
unfolding key_ltb
key_ltb_asymm a b h = ground arith

-- Strictly ascending keys: no object version occurs twice.
abbrev pub IsAscending : List Key → Type 0
IsAscending [] = Unit
IsAscending (k ∷ ks) = All (λ j. key_ltb k j ≡ true) ks × IsAscending ks

module _ {A : Type 0} (owner : A → Key) where
  -- Rows in the order of their keys; several rows may share one.
  abbrev pub IsOrdered : List A → Type 0
  IsOrdered [] = Unit
  IsOrdered (x ∷ xs) = All (λ y. key_ltb (owner y) (owner x) ≡ false) xs × IsOrdered xs

unfoldable pub has_key : Key → List Key → Bool
has_key k [] = false
has_key k (j ∷ js) = key_eqb k j || has_key k js

pub key_ltb_irrefl : (a : Key) → key_ltb a a ≡ false
unfolding key_ltb
key_ltb_irrefl a = ground arith
