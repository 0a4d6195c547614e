-- ===== src/Query/AfterClaim.antt =====
-- What QUERY answers before and after a claim, and INIT.
use rewardcalculator.Base.{
  ℕ, nat_eq, ◌+◌, ◌-◌, ◌<◌, ◌≡◌, refl, ap, ◌∙◌, arith, true, false, Option, none, some, ltb, leb,
  ◌==◌, ◌&&◌, ◌=?◌, if◌then◌else◌, Bool-cases, inl, inr,
}
use rewardcalculator.Base.Int.{ℤ, pos}
use rewardcalculator.Base.Words.{wrap64, modulus}
use rewardcalculator.Db.Engine.{Engine}
use rewardcalculator.Account.Types.{IScoreData}
use rewardcalculator.Claim.Types.{
  ClaimData, PreCommitData, PreCommitKey, pre_commit_key_eq, pre_commit_key_beq_iff, copied,
}
use rewardcalculator.Claim.PreCommit.{gen_pre_commit_key, new_pre_commit, id, find_pre_commit}
use rewardcalculator.Claim.PreCommit.Entries.{get-init_pre_commit}
use rewardcalculator.Claim.Request.{ClaimMessage, requested, do_claim}
use rewardcalculator.Claim.Request.Payout.{available, IsPayout, paid_body, do_claim-Pays}
use rewardcalculator.Context.Info.{IScoreDb}
use rewardcalculator.Query.{
  QueryRequest, of_transaction, pending, left, from_accounts, do_query, do_init,
}

module _ (P : Engine PreCommitKey PreCommitData) (C : Engine ℕ ClaimData) where
  -- A query for an account, without a transaction.
  abbrev pub plain : ℕ → QueryRequest
  plain address = record { address = address; block_height = 0; block_hash = none; tx_hash = none }

  -- A query that names the transaction of a claim.
  abbrev pub about : ClaimMessage → ℕ → QueryRequest
  about req tx_hash = record {
    address = req.address;
    block_height = req.block_height;
    block_hash = req.block_hash;
    tx_hash = some tx_hash;
  }

  left-available :
      (ia : IScoreData) (claim : Option ClaimData) → left P C ia claim ≡ available ia claim
  unfolding left
  left-available ia none = refl
  left-available ia (some claim) = refl

  score-plain :
      (db : P.Table) (cdb : C.Table) (query_db : ℕ → Option IScoreData) (address : ℕ)
      (ia : IScoreData)
      → query_db address ≡ some ia
      → (do_query P C db cdb query_db (plain address)).i_score ≡ available ia (C.get cdb address)
  unfolding do_query pending from_accounts left
  score-plain db cdb query_db address ia known =
      rw (known, left-available ia (C.get cdb address)) refl

  -- A stored pre-commit of the transaction is found.
  do_query-about :
      (db : P.Table) (cdb : C.Table) (query_db : ℕ → Option IScoreData) (req : ClaimMessage)
      (tx_hash : ℕ) (body : PreCommitData)
      → P.get db (gen_pre_commit_key req.address req.block_height (copied req.block_hash))
        ≡ some body
      → body.tx_hash ≡ tx_hash
      → (req.block_height == 0) ≡ false
      → do_query P C db cdb query_db (about req tx_hash) ≡ record {
        address = req.address;
        i_score = pos 0;
        block_height = body.claim.claim_data.block_height;
      }
  unfolding do_query pending find_pre_commit of_transaction
  do_query-about db cdb query_db req tx_hash body there same late =
      let here : (body.tx_hash == tx_hash) ≡ true = ground (arith, same) in
      rw (about, do_query, pending, there, here, late) refl

  stored_there :
      (t : P.Table) (k : PreCommitKey) (body : PreCommitData) (other : Option PreCommitData)
      → P.get t k ≡ (if k =? k then some body else other)
      → P.get t k ≡ some body
  stored_there t k body other h =
      let same : (k =? k) ≡ true = ground (arith, pre_commit_key_beq_iff k k) in h ∙ rw same refl

  -- A claim of a transaction pays the largest multiple of 1000 in what a query for the account
  -- answers. Where its block is not block 0, a query that names the transaction then answers 0 with
  -- the height of the block, and one that names none answers as before.
  pub query_after_claim :
      (db : P.Table) (cdb : C.Table) (query_db : ℕ → Option IScoreData) (req : ClaimMessage)
      (tx_hash : ℕ) (paid : ℤ)
      → req.tx_hash ≡ some tx_hash
      → 0 < req.block_height
      → (do_claim P C db cdb query_db req).2 ≡ some paid
      → let db' = (do_claim P C db cdb query_db req).0 in
        IsPayout (do_query P C db cdb query_db (plain req.address)).i_score paid
        × (do_query P C db' cdb query_db (about req tx_hash)
            ≡ record { address = req.address; i_score = pos 0; block_height = req.block_height })
        × (do_query P C db' cdb query_db (plain req.address)
            ≡ do_query P C db cdb query_db (plain req.address))
  unfolding do_query pending id new_pre_commit
  query_after_claim db cdb query_db req tx_hash paid named later h =
      let p = do_claim-Pays P C db cdb query_db req paid h in
      let db' = (do_claim P C db cdb query_db req).0 in
      let there : P.get db'
            (gen_pre_commit_key req.address req.block_height (copied req.block_hash))
          ≡ some (paid_body P C req paid) =
        stored_there db' (id (requested P C req)) (paid_body P C req paid)
          (P.get db (id (requested P C req))) (p.stored (id (requested P C req))) in
      let late : (req.block_height == 0) ≡ false = ground (arith, later) in
      (
        rw (score-plain db cdb query_db req.address p.account p.known) p.payout,
        do_query-about db' cdb query_db req tx_hash (paid_body P C req paid) there (ap copied named)
            late,
        refl,
      )

module _ (P : Engine PreCommitKey PreCommitData) where
  -- Of heights whose successors fit in 64 bits, INIT refuses one that is more than one above the
  -- current block and then changes nothing; else it keeps the pre-commits up to the height and
  -- deletes all others.
  pub get-do_init :
      (idb : IScoreDb) (db : P.Table) (block_height : ℕ) (j : PreCommitKey)
      → block_height < modulus - 1
      → idb.info.current.block_height < modulus - 1
      → let (db', accepted) = do_init P idb db block_height in
        (accepted ≡ leb block_height (idb.info.current.block_height + 1))
        × (P.get db' j ≡ (if accepted && ltb block_height j.height then none else P.get db j))
  unfolding do_init
  get-do_init idb db block_height j low low' =
      let current = idb.info.current.block_height in
      let above : leb (wrap64 (block_height + 1)) j.height ≡ ltb block_height j.height =
        ground (arith, low) in
      elim (Bool-cases (leb block_height (current + 1))) [
        | inl accepted ↦
            let in_time : ltb (wrap64 (current + 1)) block_height ≡ false =
              ground (arith, accepted, low') in
            rw (in_time, accepted, get-init_pre_commit P db block_height j, above) (refl, refl)
        | inr refused ↦
            let late : ltb (wrap64 (current + 1)) block_height ≡ true =
              ground (arith, refused, low') in
            rw (late, refused) (refl, refl)
      ]
