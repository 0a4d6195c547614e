-- ===== src/Context/Load/Candidates.antt =====
-- The map of candidates that LoadPRepCandidate reads.
use rewardcalculator.Base.{
  ℕ, nat_eq, ◌≡◌, refl, sym, ap, ◌∙◌, Option, none, some, List, [], ◌∷◌, lookup, insert,
  lookup-insert, drop, Entries, DistinctKeys, Bool-cases, inl, inr,
}
use rewardcalculator.Base.Bytes.{Bytes, bytes_eq, bytes_beq, bytes_beq_iff}
use rewardcalculator.Db.Codec.{Codec}
use rewardcalculator.Db.Key.{internal_key}
use rewardcalculator.Address.{new_address, number_of, zero_address}
use rewardcalculator.Address.RoundTrip.{IsAddress, set_bytes-set_string}
use rewardcalculator.Address.Number.{number_of-injective}
use rewardcalculator.Context.Candidates.{PRepCandidate}
use rewardcalculator.Context.Load.{prefix_prep_candidate, put_all}

abbrev pub candidate_key : Bytes → Bytes
candidate_key a = internal_key prefix_prep_candidate a

-- The key of an entry is that of an address.
pub record IsCandidate (key value : Bytes) : Type 0 where
  pub address : Bytes
  pub is_address : IsAddress address
  pub is_key : key ≡ candidate_key address

module _ (codec : Codec PRepCandidate) where
  abbrev pub stored : Option Bytes → Option PRepCandidate → Option PRepCandidate
  stored none before = before
  stored (some value) before = some (codec.unmarshal value).0

  -- The candidates of the entries over those of a map.
  pub record IsFilled (entries : List (Bytes × Bytes)) (m : List (ℕ × PRepCandidate)) : Type 0 where
    pub result : List (ℕ × PRepCandidate)
    pub is : put_all codec entries m ≡ some result
    pub complete :
        (a : Bytes)
        → IsAddress a
        → lookup (number_of a) result
          ≡ stored (lookup (candidate_key a) entries) (lookup (number_of a) m)

  key_address :
      (key : Bytes) (a : Bytes)
      → IsAddress a
      → key ≡ candidate_key a
      → new_address (some (drop 2 key)) ≡ some a
  unfolding internal_key
  key_address key a is same =
      ap (λ k. new_address (some (drop 2 k))) same
      ∙ (set_bytes-set_string 0 (drop 1 zero_address) a refl is).2

  same_key : (a b : Bytes) → bytes_beq (candidate_key a) (candidate_key b) ≡ bytes_beq a b
  unfolding internal_key bytes_beq
  same_key a b = refl

  in_front :
      (key value : Bytes) (rest : List (Bytes × Bytes)) (m : List (ℕ × PRepCandidate))
      → lookup key rest ≡ none
      → (h : IsCandidate key value) (a : Bytes) → IsAddress a
      → stored
          (lookup (candidate_key a) rest)
          (lookup (number_of a) (insert (number_of h.address) (codec.unmarshal value).0 m))
        ≡ stored (lookup (candidate_key a) ((key, value) ∷ rest)) (lookup (number_of a) m)
  in_front key value rest m none_behind h a is =
      let keys : bytes_beq key (candidate_key a) ≡ bytes_beq h.address a =
        ap (λ k. bytes_beq k (candidate_key a)) h.is_key ∙ same_key h.address a in
      let numbers = number_of-injective h.address a h.is_address is in
      let there = lookup-insert (number_of h.address) (codec.unmarshal value).0 m (number_of a) in
      elim (Bool-cases (bytes_beq h.address a)) [
        | inl own ↦
            let is_own : key ≡ candidate_key a =
              (bytes_beq_iff key (candidate_key a)).0 (keys ∙ own) in
            let gone : lookup (candidate_key a) rest ≡ none =
              ap (λ k. lookup k rest) (sym is_own) ∙ none_behind in
            rw (there, numbers, keys, own, gone) refl
        | inr other ↦ rw (there, numbers, keys, other) refl
      ]

  pub put_all-IsFilled :
      (entries : List (Bytes × Bytes)) (m : List (ℕ × PRepCandidate))
      → DistinctKeys entries
      → Entries IsCandidate entries
      → IsFilled entries m
  unfolding put_all
  put_all-IsFilled [] m d h = record { result = m; is = refl; complete = λ a is. refl }
  put_all-IsFilled ((key, value) ∷ rest) m d h =
      let p = (codec.unmarshal value).0 in
      let behind = put_all-IsFilled rest (insert (number_of h.0.address) p m) d.1 h.1 in
      record {
        result = behind.result;
        is = rw (key_address key h.0.address h.0.is_address h.0.is_key) behind.is;
        complete = λ a is. behind.complete a is ∙ in_front key value rest m d.0 h.0 a is;
      }
