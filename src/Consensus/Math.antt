-- ===== src/Consensus/Math.antt =====
-- tm/tmconsensus/math.go. `none` stands for the panic at zero.
use gordian.Prelude.{
  ℕ, ◌+◌, ◌*◌, ◌/◌, ◌%◌, ◌^◌, ◌≤◌, ◌<◌, ◌≡◌, ◌↔◌, Option, none, some, u64, ltb, ◌==◌, if◌then◌else◌,
  arith,
}

unfoldable pub byzantine_majority : ℕ → Option ℕ
byzantine_majority n =
    if n == 0
    then none
    else let quo = n / 3 in
      let rem = n % 3 in if ltb rem 2 then some (u64 (2 * quo + 1)) else some (u64 (2 * quo + 2))

unfoldable pub byzantine_minority : ℕ → Option ℕ
byzantine_minority n =
    if n == 0
    then none
    else let quo = n / 3 in let rem = n % 3 in if rem == 0 then some quo else some (u64 (quo + 1))

-- The majority of a positive uint64 `n` is the least number above two thirds of `n`: a power
-- `p` reaches it exactly when `3 * p` exceeds `2 * n`. It never passes `n`.
pub byzantine_majority_least :
    (n m p : ℕ) → n < 2 ^ 64 → byzantine_majority n ≡ some m → ((m ≤ p) ↔ (2 * n < 3 * p)) × (m ≤ n)
unfolding byzantine_majority
byzantine_majority_least n m p b h = ground arith

-- The minority of a positive uint64 `n` is the least number that reaches one third of `n`.
pub byzantine_minority_least :
    (n m p : ℕ) → n < 2 ^ 64 → byzantine_minority n ≡ some m → ((m ≤ p) ↔ (n ≤ 3 * p)) × (m ≤ n)
unfolding byzantine_minority
byzantine_minority_least n m p b h = ground arith

-- Both thresholds panic at zero and at no other number.
pub byzantine_defined :
    (n : ℕ) → ((byzantine_majority n ≡ none) ↔ (n ≡ 0)) × ((byzantine_minority n ≡ none) ↔ (n ≡ 0))
unfolding byzantine_majority byzantine_minority
byzantine_defined n = ground arith

-- Two sets of votes that both reach the majority of `n` overlap in at least a minority of `n`:
-- if they share only the power `both`, then `both` reaches the minority.
pub quorum_intersection :
    (n m k first second both : ℕ)
    → n < 2 ^ 64
    → byzantine_majority n ≡ some m
    → byzantine_minority n ≡ some k
    → m ≤ first
    → m ≤ second
    → first + second ≤ n + both
    → k ≤ both
unfolding byzantine_majority byzantine_minority
quorum_intersection n m k first second both b p q h1 h2 h3 = ground arith
