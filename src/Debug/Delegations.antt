-- ===== src/Debug/Delegations.antt =====
-- The loop of calculateDelegationReward (core/msg_calculate.go) with its calls of WriteBeta3Info,
-- beside the reward that it returns.
use rewardcalculator.Base.{
  ℕ, ◌-◌, ◌<◌, ◌&&◌, ◌≡◌, refl, ap, ◌∙◌, arith, Bool, true, false, Option, none, some, List, [],
  ◌∷◌, ltb, ◌==◌, not, if◌then◌else◌, All, Bool-cases, inl, inr, map,
}
use rewardcalculator.Base.Int.{ℤ, pos, ◌+ℤ◌, int_laws}
use rewardcalculator.Base.Words.{modulus, wrap64}
use rewardcalculator.Account.Types.{DelegateData, IScoreData}
use rewardcalculator.Context.Periods.{period_of}
use rewardcalculator.Context.Governance.{GovernanceVariable, gv_height}
use rewardcalculator.Calculate.Delegation.{
  reward_of, add_rewards, clip_start, clip_end, calculate_delegation_reward,
}
use rewardcalculator.Context.Candidates.{PRepCandidate}
use rewardcalculator.Debug.Types.{CalcDebug}
use rewardcalculator.Debug.Change.{beta3_of}
use rewardcalculator.Debug.{
  for_each, for_addresses, need_to_update, is_empty, write_beta3_info_of, write_beta3_info,
  contains,
}
use rewardcalculator.Debug.Balance.{is_above_some, delegation-Adds}
use rewardcalculator.Debug.Recorded.{IsRecorded, total_in, Written, write_to-Written}
use rewardcalculator.Debug.Beta3.{Small, period_cases, beta3_of-reward_of}

-- The address is debugged once.
abbrev pub is_once : ℕ → List ℕ → Bool
is_once a [] = false
is_once a (x ∷ l) = let rest = is_once a l in if x == a then not (contains a l) else rest

kept :
    (o : Option CalcDebug) (f : CalcDebug → Option CalcDebug)
    → ((d : CalcDebug) → f d ≡ some d)
    → (elim o [ none ↦ none | some d ↦ f d ]) ≡ o
kept none f h = refl
kept (some d) f h = h d

-- A write that leaves all but one address alone.
for_each-others :
    (a : ℕ) (write : ℕ → CalcDebug → Option CalcDebug) (l : List ℕ) (d : CalcDebug)
    → ((x : ℕ) → (x == a) ≡ false → (d : CalcDebug) → write x d ≡ some d)
    → contains a l ≡ false
    → for_each l write d ≡ some d
unfolding for_each
for_each-others a write [] d alone h = refl
for_each-others a write (x ∷ l) d alone h =
    let other : (x == a) ≡ false = ground (arith, h) in
    rw (alone x other d, for_each)
      (for_each-others a write l d alone (let it = h in rw other at it))

for_each-once :
    (a : ℕ) (write : ℕ → CalcDebug → Option CalcDebug) (l : List ℕ) (d : CalcDebug)
    → ((x : ℕ) → (x == a) ≡ false → (d : CalcDebug) → write x d ≡ some d)
    → is_once a l ≡ true
    → for_each l write d ≡ write a d
unfolding for_each
for_each-once a write [] d alone h = absurd (let it = h in cc)
for_each-once a write (x ∷ l) d alone h = elim (Bool-cases (x == a)) [
  | inl own ↦
      let same : x ≡ a = ground (arith, own) in
      let behind : contains a l ≡ false = ground (arith, own, h) in
      kept (write x d) (λ d'. for_each l write d') (λ d'. for_each-others a write l d' alone behind)
      ∙ ap (λ y. write y d) same
  | inr other ↦
      rw (alone x other d, for_each)
        (for_each-once a write l d alone (let it = h in rw other at it))
]

cancel :
    (after between before t t' r : ℤ) (x : ℕ)
    → after +ℤ (t +ℤ r) ≡ between +ℤ t'
    → between ≡ before +ℤ pos x
    → r ≡ pos x
    → after +ℤ t ≡ before +ℤ t'
cancel after between before t t' r x h k e = grind (int_laws, h, k, e)

module _ (gvs : List GovernanceVariable) (query : ℕ → Option IScoreData) where
  alone :
      (a reward_rep : ℕ) (dg : DelegateData) (period e x : ℕ)
      → (x == a) ≡ false
      → (d : CalcDebug) → write_beta3_info_of gvs query a reward_rep dg period e x d ≡ some d
  unfolding write_beta3_info_of
  alone a reward_rep dg period e x other d =
      let not_it : (a == x) ≡ false = ground (arith, other) in rw not_it refl

  beta3-Written :
      (a reward_rep : ℕ) (dg : DelegateData) (period e : ℕ) (d : CalcDebug)
      → need_to_update d ≡ true
      → is_once a d.addresses ≡ true
      → is_above_some e (map gv_height gvs) ≡ true
      → IsRecorded gvs query d
      → Written gvs query a
          (beta3_of reward_rep period dg.delegate)
          d
          (write_beta3_info gvs query a reward_rep dg period e d)
  unfolding write_beta3_info for_addresses write_beta3_info_of
  beta3-Written a reward_rep dg period e d on once above rec =
      let own : (a == a) ≡ true = ground arith in
      rw
        (
          on,
          for_each-once a (write_beta3_info_of gvs query a reward_rep dg period e) d.addresses d
              (alone a reward_rep dg period e) once,
          own,
        )
        (write_to-Written gvs query a e _ _ d (delegation-Adds _) above rec)

  -- calculateDelegationReward from here on, what it writes into the debug output.
  unfoldable pub written :
      ℕ → DelegateData → ℕ → ℕ → List GovernanceVariable → CalcDebug → Option CalcDebug
  unfolding write_beta3_info
  written a dg start end [] d = some d
  written a dg start end (gv ∷ rest) d =
      elim (period_of gv_height start end gv rest) as (λ _. Option CalcDebug) [
        | none ↦ written a dg start end rest d
        | some (s, e) ↦ elim (write_beta3_info gvs query a (wrap64 gv.reward_rep) dg (e - s) e d) [
          | none ↦ none
          | some d' ↦ written a dg start end rest d'
        ]
      ]

  -- Every height above one of these is above one of all.
  abbrev Covered : List GovernanceVariable → Type 0
  Covered = All (λ (gv : GovernanceVariable).
      (h : ℕ) → ltb gv.block_height h ≡ true → is_above_some h (map gv_height gvs) ≡ true)

  all_heights :
      (l : List GovernanceVariable)
      → ((h : ℕ)
          → is_above_some h (map gv_height l) ≡ true
          → is_above_some h (map gv_height gvs) ≡ true)
      → Covered l
  all_heights [] h = tt
  all_heights (gv ∷ l) h =
      ((λ k below. h k (rw below refl)), all_heights l (λ k later. h k (ground (arith, later))))

  -- The debug output after the loop, whose total for the address moves as the reward does.
  pub record Paid (a : ℕ) (d : CalcDebug) (total total' : ℤ) (o : Option CalcDebug) : Type 0 where
    pub debug : CalcDebug
    pub is : o ≡ some debug
    pub recorded : IsRecorded gvs query debug
    pub moves : total_in gvs query a debug +ℤ total ≡ total_in gvs query a d +ℤ total'

  written-Paid :
      (a to delegate start end : ℕ) (rest : List GovernanceVariable) (d : CalcDebug) (total : ℤ)
      → need_to_update d ≡ true
      → is_once a d.addresses ≡ true
      → IsRecorded gvs query d
      → delegate < modulus
      → All (Small end delegate) rest
      → Covered rest
      → Paid a d total
          (add_rewards start end (pos delegate) total rest)
          (written a (record { address = to; delegate = pos delegate }) start end rest d)
  unfolding add_rewards written need_to_update
  written-Paid a to delegate start end [] d total on once rec fits small covered = record {
    debug = d;
    is = refl;
    recorded = rec;
    moves = refl;
  }
  written-Paid a to delegate start end (gv ∷ rest) d total on once rec fits small covered =
      elim (period_cases start end gv rest) [
        | inl nothing ↦
            rw (nothing, add_rewards, written)
              (written-Paid a to delegate start end rest d total on once rec fits small.1 covered.1)
        | inr p ↦
            let dg : DelegateData = record { address = to; delegate = pos delegate } in
            let w =
              beta3-Written a (wrap64 gv.reward_rep) dg (p.to - p.from) p.to d on once
                (covered.0 p.to p.above) rec in
            let still_on : need_to_update w.debug ≡ true =
              (ap (λ f. f && not (is_empty w.debug.addresses)) w.same_flag
                ∙ ap (λ l. d.flag && not (is_empty l)) w.same_addresses)
              ∙ on in
            let still_once : is_once a w.debug.addresses ≡ true =
              ap (is_once a) w.same_addresses ∙ once in
            let more =
              written-Paid a to delegate start end rest w.debug
                (total +ℤ reward_of (pos delegate) (p.to - p.from) gv) still_on still_once
                w.recorded fits small.1 covered.1 in
            let earned = beta3_of-reward_of gv (p.to - p.from) end delegate p.within fits small.0 in
            rw (p.is, add_rewards, written, w.written, more.is)
              (record {
                debug = more.debug;
                is = refl;
                recorded = more.recorded;
                moves =
                    cancel _ _ _ total _ (reward_of (pos delegate) (p.to - p.from) gv) _ more.moves
                      w.moves earned;
              })
      ]

  -- calculateDelegationReward, what it writes into the debug output.
  unfoldable pub delegation_reward_written :
      ℕ → DelegateData → ℕ → ℕ → PRepCandidate → CalcDebug → Option CalcDebug
  unfolding written
  delegation_reward_written a dg start end p_rep =
      written a dg (clip_start start p_rep) (clip_end end p_rep) gvs

  -- In a calculation whose debug output is on and has the address once, where the amount is no
  -- negative number and a uint64, and where for each governance variable the reward rate times the
  -- end of the calculation times the amount fits in 64 bits: calculateDelegationReward writes its
  -- debug output without a panic, the total of the address moves by the reward that it returns, and
  -- every result stays balanced.
  pub delegation_reward_written-Paid :
      (a to delegate start end : ℕ) (p_rep : PRepCandidate) (d : CalcDebug)
      → need_to_update d ≡ true
      → is_once a d.addresses ≡ true
      → IsRecorded gvs query d
      → delegate < modulus
      → All (Small (clip_end end p_rep) delegate) gvs
      → Paid a d (pos 0) (calculate_delegation_reward gvs (pos delegate) start end p_rep) (
          delegation_reward_written a
            (record { address = to; delegate = pos delegate })
            start
            end
            p_rep
            d)
  unfolding calculate_delegation_reward delegation_reward_written
  delegation_reward_written-Paid a to delegate start end p_rep d on once rec fits small =
      written-Paid a to delegate (clip_start start p_rep) (clip_end end p_rep) gvs d (pos 0) on once
        rec fits small (all_heights gvs (λ h above. above))
