-- ===== src/Base/Maps.antt =====
-- `Map` objects as association lists in insertion order: `set` replaces in place or appends.
use Prim.Native.Nat.{ℕ}
use mathlib.Core.Bool.{Bool, true, false, ◌&&◌}
use mathlib.Core.List.{List, [], ◌∷◌}
use mathlib.Core.Logic.{inl, inr}
use mathlib.Core.Option.{Option, none, some}
use mathlib.Core.Path.{◌≡◌, refl, ap, ◌∙◌}
use native.Mathlib.Omega.{arith}
use jawstack.Base.Tests.{Bool-cases, ◌==◌, ==_iff}

-- The test by which a `Map` tells keys apart.
pub record Key (K : Type 0) : Type 0 where
  pub same : K → K → Bool
  pub same-refl : (a : K) → same a a ≡ true
  pub same-eq : (a b : K) → same a b ≡ true → a ≡ b

module _ {ℓ} {K : Type 0} {V : Type ℓ} (key : Key K) where
  unfoldable pub get : List (K × V) → K → Option V
  get [] k = none
  get ((j, v) ∷ rest) k =
      let found = get rest k in elim (key.same j k) [ true ↦ some v | false ↦ found ]

  unfoldable pub set : List (K × V) → K → V → List (K × V)
  set [] k v = (k, v) ∷ []
  set ((j, w) ∷ rest) k v =
      let after = set rest k v in
      elim (key.same j k) [ true ↦ (j, v) ∷ rest | false ↦ (j, w) ∷ after ]

  pub get-set : (m : List (K × V)) (k : K) (v : V) → get (set m k v) k ≡ some v
  unfolding get set
  get-set [] k v = rw (key.same-refl k) refl
  get-set ((j, w) ∷ rest) k v = grind (arith, get-set rest k v)

  -- Setting one key leaves the others.
  pub get-set_other :
      (m : List (K × V)) (k j : K) (v : V) → key.same k j ≡ false → get (set m k v) j ≡ get m j
  unfolding get set
  get-set_other [] k j v apart = rw apart refl
  get-set_other ((i, w) ∷ rest) k j v apart = elim (Bool-cases (key.same i k)) [
    | inl h ↦
        let here : key.same i j ≡ false = ap (λ a. key.same a j) (key.same-eq i k h) ∙ apart in
        ground (arith, h, here)
    | inr h ↦ ground (arith, h, get-set_other rest k j v apart)
  ]

pub ==-refl : (a : ℕ) → (a == a) ≡ true
==-refl a = ground arith

pub ==-eq : (a b : ℕ) → (a == b) ≡ true → a ≡ b
==-eq a b = (==_iff a b).0

abbrev pub text_key : Key ℕ
text_key = record { same = λ a b. a == b; same-refl = ==-refl; same-eq = ==-eq }

abbrev pub same_pair : ℕ × ℕ → ℕ × ℕ → Bool
same_pair a b = a.0 == b.0 && a.1 == b.1

pub same_pair_refl : (a : ℕ × ℕ) → same_pair a a ≡ true
same_pair_refl a = ground arith

pub same_pair-eq : (a b : ℕ × ℕ) → same_pair a b ≡ true → a ≡ b
same_pair-eq a b h =
    pair_eq ((==_iff a.0 b.0).0 (ground (arith, h))) ((==_iff a.1 b.1).0 (ground (arith, h)))
  where
    pair_eq : a.0 ≡ b.0 → a.1 ≡ b.1 → a ≡ b
    pair_eq p q = λ i. (p i, q i)

-- Two texts joined so that they can be told apart again.
abbrev pub pair_key : Key (ℕ × ℕ)
pair_key = record { same = same_pair; same-refl = same_pair_refl; same-eq = same_pair-eq }
