-- ===== src/Claim/Again.antt =====
-- A claim, its confirmation, the commit of its block, and the next claim of the account
-- (core/msg_claim.go, core/db_claim.go).
use mathlib.Core.Path.{subst}
use rewardcalculator.Base.{
  ℕ, nat_eq, ◌<◌, ◌≡◌, ◌≢◌, refl, ap, sym, ◌∙◌, arith, true, false, Option, none, some,
}
use rewardcalculator.Base.Int.{ℤ, pos, ◌+ℤ◌, ◌-ℤ◌, ◌≤ℤ◌, int_laws, is_zero}
use rewardcalculator.Db.Engine.{Engine}
use rewardcalculator.Account.Types.{IScoreData}
use rewardcalculator.Claim.Types.{
  ClaimData, PreCommitData, PreCommitKey, BackupKey, pre_commit_key_eq, backup_key_eq,
  pre_commit_key_beq, pre_commit_key_beq_iff, copied,
}
use rewardcalculator.Claim.PreCommit.{id, new_pre_commit, gen_pre_commit_key, commit}
use rewardcalculator.Claim.PreCommit.Entries.{IsKeyed, confirm, get-commit, commit-IsKeyed}
use rewardcalculator.Claim.Request.{ClaimMessage, CommitClaim, requested, do_claim, do_commit_claim}
use rewardcalculator.Claim.Request.Payout.{
  IsPayout, available, paid_body, do_claim-Pays, do_claim_total,
}
use rewardcalculator.Claim.Protocol.{claimed_of}
use rewardcalculator.Claim.Block.{Stores, commit_block}
use rewardcalculator.Claim.Block.Settled.{settled, claim_after_block}

-- The claim that is there, if any, is of an earlier height.
abbrev pub IsEarlier : Option ClaimData → ℕ → Type 0
IsEarlier none block_height = Unit
IsEarlier (some c) block_height = c.block_height < block_height

-- COMMIT_CLAIM of a claim that was paid.
abbrev pub confirmation : ClaimMessage → CommitClaim
confirmation req = record {
  success = true;
  address = req.address;
  block_height = req.block_height;
  block_hash = req.block_hash;
  tx_index = req.tx_index;
  tx_hash = req.tx_hash;
}

-- A claim that is confirmed and not zero, over an earlier one.
settled-confirmed :
    (pc : PreCommitData) (old : Option ClaimData)
    → pc.confirmed ≡ true
    → is_zero pc.claim.claim_data.i_score ≡ false
    → IsEarlier old pc.claim.claim_data.block_height
    → settled (some pc) old
      ≡ some (record {
        block_height = pc.claim.claim_data.block_height;
        i_score = pc.claim.claim_data.i_score +ℤ claimed_of old;
      })
settled-confirmed pc none sure some_score earlier =
    rw (sure, some_score) (λ i. some (record pc.claim.claim_data { i_score = plain i }))
  where
    plain : pc.claim.claim_data.i_score ≡ pc.claim.claim_data.i_score +ℤ pos 0
    plain = grind int_laws
settled-confirmed pc (some c) sure some_score earlier = ground (arith, sure, some_score, earlier)

not_zero : (score paid : ℤ) → IsPayout score paid → is_zero paid ≡ false
not_zero score paid payout = rw payout.multiple (ground arith)

some_injective : (a b : IScoreData) → some a ≡ some b → a ≡ b
some_injective a b h = cc

same_index :
    (tx_index : ℕ) (b : PreCommitData)
    → tx_index ≡ b.tx_index
    → confirm tx_index (some b) ≡ some (record b { confirmed = true })
same_index tx_index b h = ground (arith, h)

module _ (P : Engine PreCommitKey PreCommitData) (C : Engine ℕ ClaimData)
    (B : Engine BackupKey ClaimData) (s : Stores P C B) (query_db : ℕ → Option IScoreData)
    (req : ClaimMessage) where
  -- The stores after the claim, its confirmation, and the commit of its block.
  unfoldable pub paid_out : ℕ → Stores P C B
  unfolding do_claim do_commit_claim commit_block
  paid_out block_hash =
      let claimed = (do_claim P C s.pre_commit s.claim query_db req).0 in
      let confirmed = do_commit_claim P claimed (confirmation req) in
      commit_block P C B (record s { pre_commit = confirmed }) true req.block_height
        (some block_hash)

  claimed-IsKeyed :
      (paid : ℤ)
      → IsKeyed P s.pre_commit
      → (do_claim P C s.pre_commit s.claim query_db req).2 ≡ some paid
      → IsKeyed P (do_claim P C s.pre_commit s.claim query_db req).0
  unfolding id new_pre_commit gen_pre_commit_key
  claimed-IsKeyed paid keyed e =
      let p = do_claim-Pays P C s.pre_commit s.claim query_db req paid e in
      record {
        at_key = λ k b found. ground (
          arith,
          found,
          p.stored k,
          pre_commit_key_beq_iff (id (requested P C req)) k,
          keyed.at_key k b,
        );
      }

  confirmed_body :
      (paid : ℤ)
      → IsKeyed P s.pre_commit
      → (do_claim P C s.pre_commit s.claim query_db req).2 ≡ some paid
      → P.get
          (commit P (do_claim P C s.pre_commit s.claim query_db req).0 (requested P C req)).0
          (id (requested P C req))
        ≡ some (record (paid_body P C req paid) { confirmed = true })
  confirmed_body paid keyed e =
      let p = do_claim-Pays P C s.pre_commit s.claim query_db req paid e in
      let pc = requested P C req in
      let own : pre_commit_key_beq (id pc) (id pc) ≡ true =
        (pre_commit_key_beq_iff (id pc) (id pc)).1 refl in
      let stored : P.get (do_claim P C s.pre_commit s.claim query_db req).0 (id pc)
          ≡ some (paid_body P C req paid) =
        p.stored (id pc) ∙ rw own refl in
      get-commit P (do_claim P C s.pre_commit s.claim query_db req).0 pc (id pc)
        (claimed-IsKeyed paid keyed e)
      ∙ rw (own, stored) (same_index pc.tx_index (paid_body P C req paid) refl)

  -- After the commit of the block the claim has what was paid.
  claim-paid_out :
      (block_hash : ℕ) (paid : ℤ)
      → IsKeyed P s.pre_commit
      → req.block_hash ≡ some block_hash
      → (do_claim P C s.pre_commit s.claim query_db req).2 ≡ some paid
      → IsEarlier (C.get s.claim req.address) req.block_height
      → C.get (paid_out block_hash).claim req.address
        ≡ some (record {
          block_height = req.block_height;
          i_score = paid +ℤ claimed_of (C.get s.claim req.address);
        })
  unfolding paid_out commit_block do_commit_claim id new_pre_commit
  claim-paid_out block_hash paid keyed hash e earlier =
      let p = do_claim-Pays P C s.pre_commit s.claim query_db req paid e in
      let claimed = (do_claim P C s.pre_commit s.claim query_db req).0 in
      let pc = requested P C req in
      let confirmed = (commit P claimed pc).0 in
      let named : id pc ≡ gen_pre_commit_key req.address req.block_height block_hash =
        ap (λ h. gen_pre_commit_key req.address req.block_height (copied h)) hash in
      let body : P.get confirmed (gen_pre_commit_key req.address req.block_height block_hash)
          ≡ some (record (paid_body P C req paid) { confirmed = true }) =
        ap (P.get confirmed) (sym named) ∙ confirmed_body paid keyed e in
      claim_after_block P C B (record s { pre_commit = confirmed }) req.block_height block_hash
        req.address (commit-IsKeyed P claimed pc (claimed-IsKeyed paid keyed e))
      ∙ ap (λ o. settled o (C.get s.claim req.address)) body
      ∙ settled-confirmed (record (paid_body P C req paid) { confirmed = true })
          (C.get s.claim req.address) refl (not_zero _ paid p.payout) earlier

  -- A claim that names the hash of its block is paid, over a claim of an earlier height or none,
  -- where pre-commits are under the keys of their addresses; it is confirmed, and its block is
  -- committed. Then a claim of the same address with no pre-commit under its key is paid, where its
  -- account is calculated at another height than the first claim names and has 1000 or more above
  -- what was claimed before and paid to the first: it is paid the largest multiple of 1000 in what
  -- the account has above that.
  pub claim_again :
      (block_hash : ℕ) (paid : ℤ) (query_db' : ℕ → Option IScoreData) (ia : IScoreData)
      (req' : ClaimMessage)
      → IsKeyed P s.pre_commit
      → req.block_hash ≡ some block_hash
      → (do_claim P C s.pre_commit s.claim query_db req).2 ≡ some paid
      → IsEarlier (C.get s.claim req.address) req.block_height
      → req'.address ≡ req.address
      → P.get (paid_out block_hash).pre_commit (id (requested P C req')) ≡ none
      → query_db' req'.address ≡ some ia
      → ia.block_height ≢ req.block_height
      → pos 1000 ≤ℤ ia.i_score -ℤ (paid +ℤ claimed_of (C.get s.claim req.address))
      → (paid' : ℤ) × ((do_claim P C
            (paid_out block_hash).pre_commit
            (paid_out block_hash).claim
            query_db'
            req').2
          ≡ some paid')
        × IsPayout (ia.i_score -ℤ (paid +ℤ claimed_of (C.get s.claim req.address))) paid'
  claim_again block_hash paid query_db' ia req' keyed hash e earlier same fresh known other enough =
      let s' = paid_out block_hash in
      let claim : C.get s'.claim req'.address
          ≡ some (record {
            block_height = req.block_height;
            i_score = paid +ℤ claimed_of (C.get s.claim req.address);
          }) =
        ap (C.get s'.claim) same ∙ claim-paid_out block_hash paid keyed hash e earlier in
      let again =
        do_claim_total P C s'.pre_commit s'.claim query_db' req' ia fresh known (rw claim other)
          (rw claim enough) in
      let p = do_claim-Pays P C s'.pre_commit s'.claim query_db' req' again.0 again.1 in
      let account : p.account ≡ ia = some_injective p.account ia (sym p.known ∙ known) in
      (
        again.0,
        again.1,
        subst (λ score. IsPayout score again.0)
            (ap (λ a. available a (C.get s'.claim req'.address)) account ∙ ap (available ia) claim)
            p.payout,
      )
