-- ===== src/Context/Candidates/Life.antt =====
-- The life of a P-Rep candidate, address by address.
use rewardcalculator.Base.{
  ℕ, ◌≡◌, refl, arith, Option, none, some, inl, inr, List, [], ◌∷◌, if◌then◌else◌, ◌==◌, nat_eq,
  lookup, lookup-insert, true, false, ◌∙◌, sym, Bool-cases,
}
use rewardcalculator.Db.Engine.{Engine}
use rewardcalculator.Context.Candidates.{
  PRepCandidate, TxDataType, delegate, prep_reg, prep_un_reg, unknown, IissTx, Candidates, write,
  register, unregister, update, update_prep_candidate,
}

-- The first unregistration of an address whose block height is not 0.
unfoldable pub end_of : ℕ → List IissTx → ℕ
end_of a [] = 0
end_of a (tx ∷ rest) =
    if tx.address == a
    then elim tx.data_type [
      | prep_un_reg ↦ (if tx.block_height == 0 then end_of a rest else tx.block_height)
      | _ ↦ end_of a rest
    ]
    else end_of a rest

-- An unknown address becomes a candidate with its first registration, and the end of a candidate
-- is its first unregistration from then on.
unfoldable pub born : ℕ → List IissTx → Option PRepCandidate
unfolding end_of
born a [] = none
born a (tx ∷ rest) =
    if tx.address == a
    then elim tx.data_type [
      | prep_reg ↦ some (record { start = tx.block_height; end = end_of a rest })
      | _ ↦ born a rest
    ]
    else born a rest

unfoldable pub life : ℕ → Option PRepCandidate → List IissTx → Option PRepCandidate
unfolding born end_of
life a none txs = born a txs
life a (some p) txs = some (if p.end == 0 then record p { end = end_of a txs } else p)

-- One transaction of the candidate itself.
abbrev step : ℕ → TxDataType → Option PRepCandidate → Option PRepCandidate
step block_height prep_reg none = some (record { start = block_height; end = 0 })
step block_height prep_un_reg (some p) =
    some (if p.end == 0 then record p { end = block_height } else p)
step block_height t o = o

life-step :
    (a block_height : ℕ) (t : TxDataType) (o : Option PRepCandidate) (rest : List IissTx)
    → life a (step block_height t o) rest
      ≡ life a o (record { address = a; block_height = block_height; data_type = t } ∷ rest)
unfolding life born end_of
life-step a block_height (delegate l) none rest = ground arith
life-step a block_height (delegate l) (some p) rest = ground arith
life-step a block_height prep_reg none rest = ground arith
life-step a block_height prep_reg (some p) rest = ground arith
life-step a block_height prep_un_reg none rest = ground arith
life-step a block_height prep_un_reg (some p) rest = ground arith
life-step a block_height (unknown n) none rest = ground arith
life-step a block_height (unknown n) (some p) rest = ground arith

life-other :
    (a address block_height : ℕ) (t : TxDataType) (o : Option PRepCandidate) (rest : List IissTx)
    → (address == a) ≡ false
    → life a o rest
      ≡ life a o (record { address = address; block_height = block_height; data_type = t } ∷ rest)
unfolding life born end_of
life-other a address block_height t none rest h = ground arith
life-other a address block_height t (some p) rest h = ground arith

life-nil : (a : ℕ) (o : Option PRepCandidate) → life a o [] ≡ o
unfolding life born end_of
life-nil a none = refl
life-nil a (some p) = ground arith

module _ (G : Engine ℕ PRepCandidate) where
  -- The bucket holds what the map holds.
  unfoldable pub IsStored : Candidates G → Type 0
  IsStored s = (a : ℕ) → G.get s.db a ≡ lookup a s.memory

  memory-register :
      (a address block_height : ℕ) (o : Option PRepCandidate) (s : Candidates G)
      → lookup address s.memory ≡ o
      → lookup a (register G address block_height o s).memory
        ≡ (if address == a then step block_height prep_reg o else lookup a s.memory)
  unfolding write
  memory-register a address block_height none s h =
      lookup-insert address (record { start = block_height; end = 0 }) s.memory a
  memory-register a address block_height (some p) s h = ground (arith, h)

  memory-unregister :
      (a address block_height : ℕ) (o : Option PRepCandidate) (s : Candidates G)
      → lookup address s.memory ≡ o
      → lookup a (unregister G address block_height o s).memory
        ≡ (if address == a then step block_height prep_un_reg o else lookup a s.memory)
  unfolding write
  memory-unregister a address block_height none s h = ground (arith, h)
  memory-unregister a address block_height (some p) s h =
      ground (arith, h, lookup-insert address (record p { end = block_height }) s.memory a)

  memory-update :
      (a address block_height : ℕ) (t : TxDataType) (s : Candidates G)
      → lookup a (update G address block_height t s).memory
        ≡ (if address == a then step block_height t (lookup a s.memory) else lookup a s.memory)
  unfolding update
  memory-update a address block_height (delegate l) s = ground arith
  memory-update a address block_height prep_reg s =
      ground (arith, memory-register a address block_height _ s refl)
  memory-update a address block_height prep_un_reg s =
      ground (arith, memory-unregister a address block_height _ s refl)
  memory-update a address block_height (unknown n) s = ground arith

  life-update :
      (a address block_height : ℕ) (t : TxDataType) (rest : List IissTx) (s : Candidates G)
      → life a (lookup a (update G address block_height t s).memory) rest
        ≡ life a
            (lookup a s.memory)
            (record { address = address; block_height = block_height; data_type = t } ∷ rest)
  life-update a address block_height t rest s = elim (Bool-cases (address == a)) [
    | inl own ↦ ground (
      arith,
      own,
      memory-update a address block_height t s,
      life-step a block_height t (lookup a s.memory) rest,
    )
    | inr other ↦ ground (
      arith,
      other,
      memory-update a address block_height t s,
      life-other a address block_height t (lookup a s.memory) rest other,
    )
  ]

  -- UpdatePRepCandidate leaves each address with the candidate that its own transactions make of
  -- it: the first registration starts it, the first unregistration after it ends it, and nothing
  -- changes it from then on.
  pub update_prep_candidate_lem :
      (a : ℕ) (txs : List IissTx) (s : Candidates G)
      → lookup a (update_prep_candidate G txs s).memory ≡ life a (lookup a s.memory) txs
  unfolding update_prep_candidate
  update_prep_candidate_lem a [] s = sym (life-nil a (lookup a s.memory))
  update_prep_candidate_lem a (tx ∷ rest) s =
      update_prep_candidate_lem a rest (update G tx.address tx.block_height tx.data_type s)
      ∙ life-update a tx.address tx.block_height tx.data_type rest s

  write-IsStored :
      (address : ℕ) (p : PRepCandidate) (s : Candidates G)
      → IsStored s
      → IsStored (write G address p s)
  unfolding write IsStored
  write-IsStored address p s h a =
      rw (G.get-set s.db address p a, lookup-insert address p s.memory a, h a)

  update-IsStored :
      (address block_height : ℕ) (t : TxDataType) (s : Candidates G)
      → IsStored s
      → IsStored (update G address block_height t s)
  unfolding update
  update-IsStored address block_height (delegate l) s h = h
  update-IsStored address block_height prep_reg s h =
      elim (lookup address s.memory) as (λ o. IsStored (register G address block_height o s)) [
        | none ↦ write-IsStored address _ s h
        | some p ↦ h
      ]
  update-IsStored address block_height prep_un_reg s h =
      elim (lookup address s.memory) as (λ o. IsStored (unregister G address block_height o s)) [
        | none ↦ h
        | some p ↦
            elim (p.end == 0)
              as (λ b.
                IsStored (if b then write G address (record p { end = block_height }) s else s)) [
                  | true ↦ write-IsStored address _ s h
                  | false ↦ h
                ]
      ]
  update-IsStored address block_height (unknown n) s h = h

  -- If the bucket of the candidates holds what the map in memory holds, it does so after
  -- UpdatePRepCandidate too.
  update_prep_candidate-IsStored :
      (txs : List IissTx) (s : Candidates G) → IsStored s → IsStored (update_prep_candidate G txs s)
  unfolding update_prep_candidate
  update_prep_candidate-IsStored [] s h = h
  update_prep_candidate-IsStored (tx ∷ rest) s h =
      update_prep_candidate-IsStored rest (update G tx.address tx.block_height tx.data_type s)
        (update-IsStored tx.address tx.block_height tx.data_type s h)
