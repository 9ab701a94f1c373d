-- ===== src/Prelude/Keys.antt =====
-- Go's comparable keys: numbers, byte strings and pairs, with Go's order on strings.
use Prim.Native.Nat.{ℕ}
use mathlib.Core.Path.{◌≡◌, refl}
use mathlib.Core.Logic.{◌↔◌, ◌⊎◌, inl, inr}
use mathlib.Core.Bool.{Bool, true, false, ◌&&◌}
use mathlib.Core.List.{List, [], ◌∷◌}
use native.Mathlib.Omega.{arith}
use gordian.Prelude.Tests.{ltb, ◌==◌, ==_iff, if◌then◌else◌}

-- A test of equality that decides the path.
pub record Eq {ℓ} (A : Type ℓ) : Type ℓ where
  pub beq : A → A → Bool
  pub beq_iff : (a b : A) → (beq a b ≡ true) ↔ (a ≡ b)

-- A Go string or byte slice, by its bytes. A nil slice and an empty one are the same value here.
abbrev pub Bytes : Type 0
Bytes = List ℕ

unfoldable pub bytes_eq : Bytes → Bytes → Bool
bytes_eq [] [] = true
bytes_eq [] (y ∷ ys) = false
bytes_eq (x ∷ xs) [] = false
bytes_eq (x ∷ xs) (y ∷ ys) = x == y && bytes_eq xs ys

pub bytes_eq_iff : (a b : Bytes) → (bytes_eq a b ≡ true) ↔ (a ≡ b)
unfolding bytes_eq
bytes_eq_iff [] [] = ground arith
bytes_eq_iff [] (y ∷ ys) = ground arith
bytes_eq_iff (x ∷ xs) [] = ground arith
bytes_eq_iff (x ∷ xs) (y ∷ ys) = ground (arith, bytes_eq_iff xs ys)

pub bytes_eq_refl : (a : Bytes) → bytes_eq a a ≡ true
bytes_eq_refl a = (bytes_eq_iff a a).1 refl

-- `a <= b` on Go strings: byte by byte, a proper prefix first.
unfoldable pub bytes_leb : Bytes → Bytes → Bool
bytes_leb [] b = true
bytes_leb (x ∷ xs) [] = false
bytes_leb (x ∷ xs) (y ∷ ys) =
    let rest = bytes_leb xs ys in if ltb x y then true else if x == y then rest else false

pub bytes_leb_refl : (a : Bytes) → bytes_leb a a ≡ true
unfolding bytes_leb
bytes_leb_refl [] = refl
bytes_leb_refl (x ∷ xs) = ground (arith, bytes_leb_refl xs)

-- The empty string comes first.
pub bytes_leb-nil : (a b : Bytes) → a ≡ [] → bytes_leb a b ≡ true
unfolding bytes_leb
bytes_leb-nil [] b h = refl
bytes_leb-nil (x ∷ xs) b h = ground arith

pub bytes_leb_total : (a b : Bytes) → (bytes_leb a b ≡ true) ⊎ (bytes_leb b a ≡ true)
unfolding bytes_leb
bytes_leb_total [] b = inl refl
bytes_leb_total (x ∷ xs) [] = inr refl
bytes_leb_total (x ∷ xs) (y ∷ ys) = ground (arith, bytes_leb_total xs ys)

pub bytes_leb_antisymm : (a b : Bytes) → bytes_leb a b ≡ true → bytes_leb b a ≡ true → a ≡ b
unfolding bytes_leb
bytes_leb_antisymm [] [] h k = refl
bytes_leb_antisymm [] (y ∷ ys) h k = ground arith
bytes_leb_antisymm (x ∷ xs) [] h k = ground arith
bytes_leb_antisymm (x ∷ xs) (y ∷ ys) h k = ground (arith, bytes_leb_antisymm xs ys)

pub bytes_leb_trans :
    (a b c : Bytes) → bytes_leb a b ≡ true → bytes_leb b c ≡ true → bytes_leb a c ≡ true
unfolding bytes_leb
bytes_leb_trans [] b c h k = refl
bytes_leb_trans (x ∷ xs) [] c h k = ground arith
bytes_leb_trans (x ∷ xs) (y ∷ ys) [] h k = ground arith
bytes_leb_trans (x ∷ xs) (y ∷ ys) (z ∷ zs) h k = ground (arith, bytes_leb_trans xs ys zs)

-- Go's built-in `min` on strings.
abbrev pub bytes_min : Bytes → Bytes → Bytes
bytes_min a b = if bytes_leb a b then a else b

instance abbrev pub nat_eq : Eq ℕ
nat_eq = record { beq = ◌==◌; beq_iff = ==_iff }

instance abbrev pub bytes_key : Eq Bytes
bytes_key = record { beq = bytes_eq; beq_iff = bytes_eq_iff }

abbrev pub pair_eq : ℕ × ℕ → ℕ × ℕ → Bool
pair_eq p q = p.0 == q.0 && p.1 == q.1

pub pair_eq_iff : (p q : ℕ × ℕ) → (pair_eq p q ≡ true) ↔ (p ≡ q)
pair_eq_iff p q = ground arith

instance abbrev pub pair_key : Eq (ℕ × ℕ)
pair_key = record { beq = pair_eq; beq_iff = pair_eq_iff }
