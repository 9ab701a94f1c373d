-- ===== src/Store/Validators.antt =====
-- tm/tmstore/tmmemstore/validatorstore.go: public keys and vote powers under their hashes. The hash
-- scheme is a parameter; `none` is its error.
use gordian.Prelude.{
  ℕ, ◌≡◌, refl, sym, ap, ◌∙◌, List, [], ◌∷◌, Bytes, bytes_key, Map, lookup, insert, has,
  lookup-insert, bytes_eq_refl, length, length-map, Option, none, some, ◌==◌, if◌then◌else◌, arith,
}
use gordian.Consensus.Types.{PubKey, Validator, validators_to_pub_keys, validators_to_vote_powers}

pub record HashScheme : Type 0 where
  pub pub_keys : List PubKey → Option Bytes
  pub vote_powers : List ℕ → Option Bytes

pub record ValidatorStore : Type 0 where
  pub keys : Map Bytes (List PubKey)
  pub pows : Map Bytes (List ℕ)

-- A save gives the hash and the store, also when the hash is there already; or the hash fails.
pub data SaveResult : Type 0 where
  saved : Bytes → ValidatorStore → SaveResult
  already_exist : Bytes → SaveResult
  hash_failed : SaveResult

pub data LoadError : Type 0 where
  no_pub_key_hash no_vote_power_hash no_hashes count_mismatch : LoadError

pub data Loaded : Type 0 where
  loaded : List Validator → Loaded
  load_failed : LoadError → Loaded

module _ (hs : HashScheme) where
  unfoldable pub save_pub_keys : List PubKey → ValidatorStore → SaveResult
  save_pub_keys keys s = elim (hs.pub_keys keys) [
    | none ↦ hash_failed
    | some hash ↦
        if has hash s.keys
        then already_exist hash
        else saved hash (record s { keys = insert hash keys s.keys })
  ]

  unfoldable pub save_vote_powers : List ℕ → ValidatorStore → SaveResult
  save_vote_powers pows s = elim (hs.vote_powers pows) [
    | none ↦ hash_failed
    | some hash ↦
        if has hash s.pows
        then already_exist hash
        else saved hash (record s { pows = insert hash pows s.pows })
  ]

unfoldable pub load_pub_keys : Bytes → ValidatorStore → Option (List PubKey)
load_pub_keys hash s = lookup hash s.keys

unfoldable pub load_vote_powers : Bytes → ValidatorStore → Option (List ℕ)
load_vote_powers hash s = lookup hash s.pows

-- The loop over the keys.
unfoldable pub zip_validators : List PubKey → List ℕ → List Validator
zip_validators [] ps = []
zip_validators (k ∷ ks) [] = []
zip_validators (k ∷ ks) (p ∷ ps) = record { pub_key = k; power = p } ∷ zip_validators ks ps

unfoldable pub load_validators : Bytes → Bytes → ValidatorStore → Loaded
load_validators key_hash pow_hash s = elim (lookup key_hash s.keys) [
  | none ↦ elim (lookup pow_hash s.pows) [
    | none ↦ load_failed no_hashes
    | some ps ↦ load_failed no_pub_key_hash
  ]
  | some ks ↦ elim (lookup pow_hash s.pows) [
    | none ↦ load_failed no_vote_power_hash
    | some ps ↦
        if length ks == length ps then loaded (zip_validators ks ps) else load_failed count_mismatch
  ]
]

zip_validators_lem :
    (vs : List Validator)
    → zip_validators (validators_to_pub_keys vs) (validators_to_vote_powers vs) ≡ vs
unfolding zip_validators validators_to_pub_keys validators_to_vote_powers
zip_validators_lem [] = refl
zip_validators_lem (v ∷ vs) = ap (λ r. v ∷ r) (zip_validators_lem vs)

save_pub_keys_lem :
    (hs : HashScheme) (keys : List PubKey) (s t : ValidatorStore) (hash : Bytes)
    → save_pub_keys hs keys s ≡ saved hash t
    → (lookup hash t.keys ≡ some keys) × (t.pows ≡ s.pows)
unfolding save_pub_keys
save_pub_keys_lem hs keys s t hash e =
    ground (arith, e, lookup-insert hash hash keys s.keys, bytes_eq_refl hash)

save_vote_powers_lem :
    (hs : HashScheme) (pows : List ℕ) (s t : ValidatorStore) (hash : Bytes)
    → save_vote_powers hs pows s ≡ saved hash t
    → (lookup hash t.pows ≡ some pows) × (t.keys ≡ s.keys)
unfolding save_vote_powers
save_vote_powers_lem hs pows s t hash e =
    ground (arith, e, lookup-insert hash hash pows s.pows, bytes_eq_refl hash)

-- Validators whose keys and powers were saved, each under a hash that was new, are loaded back
-- from the two hashes as they were.
pub load_validators-save :
    (hs : HashScheme) (vs : List Validator) (s t u : ValidatorStore) (key_hash pow_hash : Bytes)
    → save_pub_keys hs (validators_to_pub_keys vs) s ≡ saved key_hash t
    → save_vote_powers hs (validators_to_vote_powers vs) t ≡ saved pow_hash u
    → load_validators key_hash pow_hash u ≡ loaded vs
unfolding save_pub_keys save_vote_powers load_validators
load_validators-save hs vs s t u key_hash pow_hash e d =
    let ks = validators_to_pub_keys vs in
    let ps = validators_to_vote_powers vs in
    let same : length ks ≡ length ps =
      unfold validators_to_pub_keys validators_to_vote_powers in
      length-map vs (λ v. v.pub_key) ∙ sym (length-map vs (λ v. v.power)) in
    let a = save_pub_keys_lem hs ks s t key_hash e in
    let b = save_vote_powers_lem hs ps t u pow_hash d in
    ground (arith, a, b, same, zip_validators_lem vs)
