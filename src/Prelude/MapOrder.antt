-- ===== src/Prelude/MapOrder.antt =====
-- Two orders in which a range loop may visit the entries of one map.
use mathlib.Core.Path.{◌≡◌, refl, ap, ◌∙◌}
use mathlib.Core.List.{◌∷◌, Permᴰ}
use native.Mathlib.Omega.{arith}
use gordian.Prelude.Keys.{Eq}
use gordian.Prelude.Maps.{Map, lookup, has, Distinct}

module _ {ℓ κ} {K : Type ℓ} {V : Type κ} ⦃e : Eq K⦄ where
  has_cons :
      (j : K) (a b : K × V) (m m' : Map K V)
      → a ≡ b
      → has j m ≡ has j m'
      → has j (a ∷ m) ≡ has j (b ∷ m')
  unfolding lookup
  has_cons j (k, v) b m m' q h = ap (λ x. has j (x ∷ m)) q ∙ same b
    where
      same : (c : K × V) → has j (c ∷ m) ≡ has j (c ∷ m')
      same (i, w) = ground arith

  lookup_cons :
      (j : K) (a b : K × V) (m m' : Map K V)
      → a ≡ b
      → lookup j m ≡ lookup j m'
      → lookup j (a ∷ m) ≡ lookup j (b ∷ m')
  unfolding lookup
  lookup_cons j (k, v) b m m' q h = ap (λ x. lookup j (x ∷ m)) q ∙ same b
    where
      same : (c : K × V) → lookup j (c ∷ m) ≡ lookup j (c ∷ m')
      same (i, w) = ground arith

  has_swap : (j : K) (a b : K × V) (m : Map K V) → has j (a ∷ b ∷ m) ≡ has j (b ∷ a ∷ m)
  unfolding lookup
  has_swap j (k, v) (i, w) m = ground arith

  lookup_swap :
      (j : K) (a b : K × V) (m : Map K V)
      → Distinct (a ∷ b ∷ m)
      → lookup j (a ∷ b ∷ m) ≡ lookup j (b ∷ a ∷ m)
  unfolding lookup
  lookup_swap j (k, v) (i, w) m d = ground (arith, e.beq_iff i k, e.beq_iff k j, e.beq_iff i j, d.0)

  Distinct-swap : (a b : K × V) (m : Map K V) → Distinct (a ∷ b ∷ m) → Distinct (b ∷ a ∷ m)
  unfolding lookup
  Distinct-swap (k, v) (i, w) m d = ground (arith, e.beq_iff i k, e.beq_iff k i)

  Distinct-cons :
      (a b : K × V) (m m' : Map K V)
      → a ≡ b
      → ((j : K) → has j m ≡ has j m')
      → Distinct m'
      → Distinct (a ∷ m)
      → Distinct (b ∷ m')
  Distinct-cons (k, v) (i, w) m m' q h d d0 = (ground (arith, h k, d0.0), d)

  pub has-perm : {m m' : Map K V} (j : K) → Permᴰ m m' → has j m ≡ has j m'
  has-perm j Permᴰ.nil = refl
  has-perm j (Permᴰ.cons {a} {b} {l₁} {l₂} q p) = has_cons j a b l₁ l₂ q (has-perm j p)
  has-perm j (Permᴰ.swap {a} {b} {a'} {b'} {l} q r) =
      has_swap j a b l ∙ has_cons j b a' (a ∷ l) (b' ∷ l) r (has_cons j a b' l l q refl)
  has-perm j (Permᴰ.trans p p') = has-perm j p ∙ has-perm j p'

  pub Distinct-perm : {m m' : Map K V} → Permᴰ m m' → Distinct m → Distinct m'
  Distinct-perm Permᴰ.nil d = d
  Distinct-perm (Permᴰ.cons {a} {b} {l₁} {l₂} q p) d =
      Distinct-cons a b l₁ l₂ q (λ j. has-perm j p) (Distinct-perm p d.1) d
  Distinct-perm (Permᴰ.swap {a} {b} {a'} {b'} {l} q r) d =
      let s = Distinct-swap a b l d in
      Distinct-cons b a' (a ∷ l) (b' ∷ l) r (λ j. has_cons j a b' l l q refl)
        (Distinct-cons a b' l l q (λ j. refl) s.1.1 s.1) s
  Distinct-perm (Permᴰ.trans p p') d = Distinct-perm p' (Distinct-perm p d)

  pub lookup-perm : {m m' : Map K V} (j : K) → Permᴰ m m' → Distinct m → lookup j m ≡ lookup j m'
  lookup-perm j Permᴰ.nil d = refl
  lookup-perm j (Permᴰ.cons {a} {b} {l₁} {l₂} q p) d =
      lookup_cons j a b l₁ l₂ q (lookup-perm j p d.1)
  lookup-perm j (Permᴰ.swap {a} {b} {a'} {b'} {l} q r) d =
      lookup_swap j a b l d ∙ lookup_cons j b a' (a ∷ l) (b' ∷ l) r (lookup_cons j a b' l l q refl)
  lookup-perm j (Permᴰ.trans p p') d = lookup-perm j p d ∙ lookup-perm j p' (Distinct-perm p d)
