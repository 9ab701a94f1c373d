-- ===== src/Consensus/Trust.antt =====
-- tm/tmconsensus/validator.go: `CanTrustValidators`.
use gordian.Prelude.{
  ◌≤◌, ◌<◌, ◌≡◌, ◌↔◌, ◌^◌, ◌*◌, true, arith, ap, ◌∙◌, u64_add_left, false, ℕ, ◌+◌, Bool, List, [],
  ◌∷◌, Option, none, some, u64, ltb, if◌then◌else◌, bytes_eq, contains_func,
}
use gordian.Consensus.Types.{Validator, PubKey}
use gordian.Consensus.Math.{byzantine_minority}

-- The loop over the validators: the total power and the trusted power, both uint64.
unfoldable pub trust_powers : List PubKey → List Validator → ℕ × ℕ → ℕ × ℕ
trust_powers keys [] acc = acc
trust_powers keys (v ∷ vs) (total, trusted) = trust_powers keys vs (
  u64 (total + v.power),
  (if contains_func (bytes_eq v.pub_key) keys then u64 (trusted + v.power) else trusted),
)

-- `none` is the panic of `ByzantineMinority(0)`.
unfoldable pub can_trust_validators : List Validator → List PubKey → Option Bool
can_trust_validators vs keys =
    let (total, trusted) = trust_powers keys vs (0, 0) in
    elim (byzantine_minority total) [ none ↦ none | some m ↦ some (ltb (u64 (m + 1)) trusted) ]

-- The powers as plain sums: of all validators, and of those whose key is trusted.
abbrev pub total_power : List Validator → ℕ
total_power [] = 0
total_power (v ∷ vs) = v.power + total_power vs

abbrev pub trusted_power : List PubKey → List Validator → ℕ
trusted_power keys [] = 0
trusted_power keys (v ∷ vs) =
    (if contains_func (bytes_eq v.pub_key) keys then v.power else 0) + trusted_power keys vs

add_if :
    (c : Bool) (p b : ℕ) → (if c then u64 (u64 b + p) else u64 b) ≡ u64 (b + (if c then p else 0))
add_if true p b = u64_add_left b p
add_if false p b = omega arith

trust_powers_lem :
    (keys : List PubKey) (vs : List Validator) (a b : ℕ)
    → trust_powers keys vs (u64 a, u64 b)
      ≡ (u64 (a + total_power vs), u64 (b + trusted_power keys vs))
unfolding trust_powers
trust_powers_lem keys [] a b = ground arith
trust_powers_lem keys (v ∷ vs) a b =
    let c = contains_func (bytes_eq v.pub_key) keys in
    let q : ℕ = if c then v.power else 0 in
    ap (λ x. trust_powers keys vs (u64 (u64 a + v.power), x)) (add_if c v.power b)
    ∙ (ap (λ x. trust_powers keys vs (x, u64 (b + q))) (u64_add_left a v.power)
        ∙ (trust_powers_lem keys vs (a + v.power) (b + q) ∙ ground arith))

trusted-le-total :
    (keys : List PubKey) (vs : List Validator) → trusted_power keys vs ≤ total_power vs
trusted-le-total keys [] = omega arith
trusted-le-total keys (v ∷ vs) = ground (arith, trusted-le-total keys vs)

-- For validators of positive total power below 2^64 the test passes exactly when the trusted power
-- exceeds a third of the total by at least two votes: three times it is at least the total plus six.
pub can_trust_validators_iff :
    (vs : List Validator) (keys : List PubKey)
    → 0 < total_power vs
    → total_power vs < 2 ^ 64
    → (can_trust_validators vs keys ≡ some true) ↔ (total_power vs + 6 ≤ 3 * trusted_power keys vs)
unfolding can_trust_validators byzantine_minority
can_trust_validators_iff vs keys pos small =
    ground (arith, trust_powers_lem keys vs 0 0, trusted-le-total keys vs)
