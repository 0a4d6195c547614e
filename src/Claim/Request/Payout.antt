-- ===== src/Claim/Request/Payout.antt =====
-- What DoClaim pays, and what it leaves in the pre-commit store.
use rewardcalculator.Base.{
  ℕ, suc, ◌-◌, ◌*◌, ◌/◌, ◌≡◌, ◌≢◌, false, Option, none, some, arith, if◌then◌else◌, ◌=?◌,
  Option-cases, inl, inr, nat_eq,
}
use rewardcalculator.Base.Int.{ℤ, pos, negsuc, ◌+ℤ◌, ◌-ℤ◌, ◌%ℤ◌, ◌≤ℤ◌, ltb_ℤ, int_laws, mod_pos}
use rewardcalculator.Db.Engine.{Engine}
use rewardcalculator.Account.Types.{IScoreData}
use rewardcalculator.Claim.Types.{ClaimData, PreCommitData, PreCommitKey, pre_commit_key_eq}
use rewardcalculator.Claim.PreCommit.{new_pre_commit, id, query, write}
use rewardcalculator.Claim.Request.{
  ClaimMessage, requested, subtract_claimed, do_claim, claim_min_i_score,
}

-- What is left of an account's I-Score after what was claimed.
abbrev pub available : IScoreData → Option ClaimData → ℤ
available ia none = ia.i_score
available ia (some c) = ia.i_score -ℤ c.i_score

-- `paid` is the largest multiple of 1000 in `score`, and is not zero.
pub record IsPayout (score paid : ℤ) : Type 0 where
  pub count : ℕ
  pub multiple : paid ≡ pos (1000 * suc count)
  pub covered : paid ≤ℤ score
  pub largest : score ≤ℤ paid +ℤ pos 999

IsPayout-of :
    (score : ℤ)
    → ltb_ℤ score (pos claim_min_i_score) ≡ false
    → IsPayout score (score -ℤ score %ℤ pos claim_min_i_score)
IsPayout-of (pos n) h = record {
  count = n / 1000 - 1;
  multiple = rw (mod_pos n 1000 (omega arith)) (grind int_laws);
  covered = rw (mod_pos n 1000 (omega arith)) (grind int_laws);
  largest = rw (mod_pos n 1000 (omega arith)) (grind int_laws);
}
IsPayout-of (negsuc n) h = absurd (ground arith)

-- The height of the last claim, if there is one, is not the one of the account.
abbrev pub IsOtherHeight : IScoreData → Option ClaimData → Type 0
IsOtherHeight ia none = Unit
IsOtherHeight ia (some c) = ia.block_height ≢ c.block_height

module _ (P : Engine PreCommitKey PreCommitData) (C : Engine ℕ ClaimData) where
  -- The body of a request's pre-commit with what it pays.
  abbrev pub paid_body : ClaimMessage → ℤ → PreCommitData
  paid_body req paid = record (requested P C req).body {
    claim = record {
      address = req.address;
      claim_data = record { block_height = req.block_height; i_score = paid };
    };
  }

  module _ (db : P.Table) (cdb : C.Table) (query_db : ℕ → Option IScoreData)
      (req : ClaimMessage) where
    -- A request that pays: the account that it draws on, why it may, and what it stored.
    pub record Pays (paid : ℤ) : Type 0 where
      pub account : IScoreData
      pub known : query_db req.address ≡ some account
      pub fresh : P.get db (id (requested P C req)) ≡ none
      pub other_height : IsOtherHeight account (C.get cdb req.address)
      pub payout : IsPayout (available account (C.get cdb req.address)) paid
      pub height : (do_claim P C db cdb query_db req).1 ≡ account.block_height
      pub stored :
          (j : PreCommitKey)
          → P.get (do_claim P C db cdb query_db req).0 j
            ≡ (if id (requested P C req) =? j then some (paid_body req paid) else P.get db j)

    settle_pays :
        (ia : IScoreData) (claimed : Option ClaimData) (paid : ℤ)
        → (subtract_claimed P C db (requested P C req) ia claimed).2 ≡ some paid
        → IsOtherHeight ia claimed
          × (ltb_ℤ (available ia claimed) (pos 1000) ≡ false)
          × (paid ≡ available ia claimed -ℤ available ia claimed %ℤ pos 1000)
          × ((subtract_claimed P C db (requested P C req) ia claimed).1 ≡ ia.block_height)
          × ((subtract_claimed P C db (requested P C req) ia claimed).0
              ≡ write P db (requested P C req) (some paid))
    unfolding subtract_claimed
    settle_pays ia none paid h = ground arith
    settle_pays ia (some c) paid h = ground arith

    subtract_claimed-none :
        (ia : IScoreData) (claimed : Option ClaimData)
        → (subtract_claimed P C db (requested P C req) ia claimed).2 ≡ none
        → (subtract_claimed P C db (requested P C req) ia claimed).0 ≡ db
    unfolding subtract_claimed
    subtract_claimed-none ia none h = ground arith
    subtract_claimed-none ia (some c) h = ground arith

    -- The three ways of DoClaim before the payout.
    do_claim-again :
        (b : PreCommitData)
        → P.get db (id (requested P C req)) ≡ some b
        → do_claim P C db cdb query_db req ≡ (db, req.block_height, none)
    unfolding do_claim query new_pre_commit
    do_claim-again b h = ground (arith, h)

    do_claim-unknown :
        P.get db (id (requested P C req)) ≡ none
        → query_db req.address ≡ none
        → do_claim P C db cdb query_db req ≡ (db, 0, none)
    unfolding do_claim query new_pre_commit
    do_claim-unknown h k = ground (arith, h, k)

    do_claim-known :
        (ia : IScoreData)
        → P.get db (id (requested P C req)) ≡ none
        → query_db req.address ≡ some ia
        → do_claim P C db cdb query_db req
          ≡ subtract_claimed P C db (requested P C req) ia (C.get cdb req.address)
    unfolding do_claim query new_pre_commit
    do_claim-known ia h k = ground (arith, h, k)

    pays :
        (ia : IScoreData) (paid : ℤ)
        → P.get db (id (requested P C req)) ≡ none
        → query_db req.address ≡ some ia
        → (do_claim P C db cdb query_db req).2 ≡ some paid
        → Pays paid
    unfolding write new_pre_commit
    pays ia paid fresh known h =
        let e = do_claim-known ia fresh known in
        let r = settle_pays ia (C.get cdb req.address) paid (rw e at h) in
        record {
          account = ia;
          known = known;
          fresh = fresh;
          other_height = r.0;
          payout = rw r.2 (IsPayout-of (available ia (C.get cdb req.address)) r.1);
          height = rw e r.3;
          stored =
              λ j. rw e (rw r.4 (P.get-set db (id (requested P C req)) (paid_body req paid) j));
        }

    -- If a claim pays, the store had no pre-commit under its key, the query DB has its account, and
    -- the account was calculated at another height than its claim, if any, has. It pays the largest
    -- multiple of 1000, not zero, in what is left of the I-Score after what was claimed before,
    -- answers with the account's block height, and stores the unconfirmed payment under its key and
    -- nothing else.
    pub do_claim-Pays : (paid : ℤ) → (do_claim P C db cdb query_db req).2 ≡ some paid → Pays paid
    do_claim-Pays paid h = elim (Option-cases (P.get db (id (requested P C req)))) [
      | inr (b, e) ↦ cc (do_claim-again b e)
      | inl fresh ↦ elim (Option-cases (query_db req.address)) [
        | inl unknown ↦ cc (do_claim-unknown fresh unknown)
        | inr (ia, known) ↦ pays ia paid fresh known h
      ]
    ]

    -- A claim that does not pay leaves the store of pre-commits as it was.
    pub do_claim_refuses :
        (do_claim P C db cdb query_db req).2 ≡ none → (do_claim P C db cdb query_db req).0 ≡ db
    do_claim_refuses h = elim (Option-cases (P.get db (id (requested P C req)))) [
      | inr (b, e) ↦ rw (do_claim-again b e)
      | inl fresh ↦ elim (Option-cases (query_db req.address)) [
        | inl unknown ↦ rw (do_claim-unknown fresh unknown)
        | inr (ia, known) ↦
            let e = do_claim-known ia fresh known in
            rw e (subtract_claimed-none ia (C.get cdb req.address) (rw e at h))
      ]
    ]

    subtract_claimed_total :
        (ia : IScoreData) (claimed : Option ClaimData)
        → IsOtherHeight ia claimed
        → pos 1000 ≤ℤ available ia claimed
        → (paid : ℤ) × ((subtract_claimed P C db (requested P C req) ia claimed).2 ≡ some paid)
    unfolding subtract_claimed
    subtract_claimed_total ia none new enough =
        (available ia none -ℤ available ia none %ℤ pos 1000, ground arith)
    subtract_claimed_total ia (some c) new enough =
        (available ia (some c) -ℤ available ia (some c) %ℤ pos 1000, ground arith)

    -- A claim is paid if the store has no pre-commit under its key, the query DB has its account,
    -- the account was calculated at another height than its claim, if any, has, and 1000 or more of
    -- its I-Score are left.
    pub do_claim_total :
        (ia : IScoreData)
        → P.get db (id (requested P C req)) ≡ none
        → query_db req.address ≡ some ia
        → IsOtherHeight ia (C.get cdb req.address)
        → pos 1000 ≤ℤ available ia (C.get cdb req.address)
        → (paid : ℤ) × ((do_claim P C db cdb query_db req).2 ≡ some paid)
    do_claim_total ia fresh known new enough =
        rw (do_claim-known ia fresh known)
          (subtract_claimed_total ia (C.get cdb req.address) new enough)
