-- ===== src/Context/Info/Heights.antt =====
-- The block heights of the DB information.
use rewardcalculator.Base.Words.{wrap64}
use rewardcalculator.Base.{
  zero, suc, ◌+◌, ltb, ◌==◌, ◌&&◌, not, sym, ◌∙◌, Bool-cases, inl, inr, refl, none, some, ℕ, ◌≤◌,
  ◌<◌, ◌≡◌, Bool, true, false, Option, none, some, arith, ◌⊎◌, ◌≢◌,
}
use rewardcalculator.Context.Info.{
  IScoreDb, toggle_account_db, is_calculating, set_current_block_info, set_calc_done_bh,
  rollback_current_block_info, rollback_account_db_block_info, check_rollback,
  check_account_db_rollback, accept_header, accept_calculate, CalcStatus, ok, doing,
  need_iiss_data_reload, set_calculating_bh, reset_calculating_bh, calc_block_height,
}

-- The calculations are in order, and the management DB has what is in memory.
pub record IsOrdered (idb : IScoreDb) : Type 0 where
  pub prev : idb.info.prev_calc_done ≤ idb.info.calc_done
  pub running : idb.info.calc_done ≤ idb.info.calculating
  pub saved : idb.stored ≡ idb.info

-- What DoCalculate, COMMIT_BLOCK and ROLLBACK do to the DB information.
pub data Step : IScoreDb → IScoreDb → Type 0 where
  -- a calculation request, accepted or not
  requested :
      (idb : IScoreDb) (reload : Bool) (header : Option ℕ)
      → Step idb (accept_calculate idb reload header).0
  -- the toggle of an accepted calculation
  toggled : (idb : IScoreDb) (block_height : ℕ) → Step idb (toggle_account_db idb block_height)
  -- the end of the calculation that runs
  finished :
      (idb : IScoreDb) (block_height : ℕ)
      → is_calculating idb ≡ true
      → block_height ≡ idb.info.calculating
      → Step idb (set_calc_done_bh idb block_height)
  block_committed :
      (idb : IScoreDb) (block_height : ℕ) (block_hash : Option ℕ)
      → Step idb (set_current_block_info idb block_height block_hash)
  block_rolled_back :
      (idb : IScoreDb) (block_height : ℕ) (block_hash : Option ℕ)
      → Step idb (rollback_current_block_info idb block_height block_hash)
  account_rolled_back : (idb : IScoreDb) → Step idb (rollback_account_db_block_info idb)

pub data Reach (a : IScoreDb) : IScoreDb → Type 0 where
  here : Reach a a
  next : {b c : IScoreDb} → Reach a b → Step b c → Reach a c

-- Every step keeps the calculations in order and the management DB up to date.
Step-IsOrdered : {a b : IScoreDb} → Step a b → IsOrdered a → IsOrdered b
unfolding accept_calculate toggle_account_db set_calc_done_bh set_current_block_info is_calculating
    rollback_current_block_info rollback_account_db_block_info
Step-IsOrdered (requested idb reload none) h = ground arith
Step-IsOrdered (requested idb reload (some header)) h = ground arith
Step-IsOrdered (toggled idb block_height) h = ground arith
Step-IsOrdered (finished idb block_height run e) h = ground arith
Step-IsOrdered (block_committed idb block_height block_hash) h = ground arith
Step-IsOrdered (block_rolled_back idb block_height block_hash) h = ground arith
Step-IsOrdered (account_rolled_back idb) h = ground arith

-- From DB information that is in order and saved, over any requests and ends of calculations,
-- toggles, commits and rollbacks of blocks and of the account DB, where only a calculation that
-- runs ends, at its height: the previous calculation is not above the last one, nor that above the
-- one that runs, and the management DB holds what is in memory.
pub heights-IsOrdered : {a b : IScoreDb} → IsOrdered a → Reach a b → IsOrdered b
heights-IsOrdered h here = h
heights-IsOrdered h (next r st) = Step-IsOrdered st (heights-IsOrdered h r)

-- No calculation runs, or the request is the reload.
abbrev pub IsLetThrough : IScoreDb → Bool → Type 0
IsLetThrough idb reload = (is_calculating idb ≡ false) ⊎ (reload ≡ true)

-- A header names this height: its own, or in a header of height 0 the one after the last calculation.
abbrev pub Names : IScoreDb → Option ℕ → ℕ → Type 0
Names idb none height = ⊥
Names idb (some zero) height = height ≡ wrap64 (idb.info.calc_done + 1)
Names idb (some (suc h)) height = height ≡ suc h

-- What becomes of a request of a calculation with this header, by the answer.
pub data Accepted (idb : IScoreDb) (reload : Bool) (header : Option ℕ) (idb' : IScoreDb)
    (status : CalcStatus) : Type 0 where
  is_dropped :
      status ≡ doing
      → is_calculating idb ≡ true
      → reload ≡ false
      → idb' ≡ idb
      → Accepted idb reload header idb' status
  is_run :
      (height : ℕ)
      → status ≡ ok
      → IsLetThrough idb reload
      → Names idb header height
      → idb.info.calc_done < height
      → is_calculating idb' ≡ true
      → idb' ≡ set_calculating_bh idb height
      → Accepted idb reload header idb' status
  is_refused :
      status ≢ doing
      → status ≢ ok
      → IsLetThrough idb reload
      → ((height : ℕ) → Names idb header height → height ≤ idb.info.calc_done)
      → is_calculating idb' ≡ false
      → idb' ≡ reset_calculating_bh idb
      → Accepted idb reload header idb' status

-- With a header that names a height, a request that is let through.
accept_header-Accepted :
    (idb : IScoreDb) (reload : Bool) (header : ℕ)
    → IsLetThrough idb reload
    → Names idb (some header) (calc_block_height idb header)
    → ((h : ℕ) → Names idb (some header) h → h ≡ calc_block_height idb header)
    → let (idb', status) = accept_header idb (some header) in
      Accepted idb reload (some header) idb' status
unfolding accept_header set_calculating_bh reset_calculating_bh is_calculating
accept_header-Accepted idb reload header through names only =
    let height = calc_block_height idb header in
    elim (Bool-cases (height == idb.info.calc_done)) [
      | inl same ↦ rw same (
          is_refused (λ e. cc) (λ e. cc) through (λ h named. ground (arith, only h named, same))
            (ground arith) refl)
      | inr other ↦ elim (Bool-cases (ltb height idb.info.calc_done)) [
        | inl low ↦
            rw (other, low)
              (is_refused (λ e. cc) (λ e. cc) through (λ h named. ground (arith, only h named, low))
                (ground arith) refl)
        | inr high ↦
            rw (other, high)
              (is_run height refl through names (ground (arith, other, high))
                (ground (arith, other, high)) refl)
      ]
    ]

let_through :
    (idb : IScoreDb) (reload : Bool) (header : Option ℕ)
    → IsLetThrough idb reload
    → let (idb', status) = accept_header idb header in Accepted idb reload header idb' status
unfolding accept_header reset_calculating_bh is_calculating calc_block_height
let_through idb reload none through =
    is_refused (λ e. cc) (λ e. cc) through (λ h named. absurd named) (ground arith) refl
let_through idb reload (some zero) through =
    accept_header-Accepted idb reload zero through refl (λ h named. named)
let_through idb reload (some (suc h)) through =
    let own : calc_block_height idb (suc h) ≡ suc h = ground arith in
    accept_header-Accepted idb reload (suc h) through own (λ h' named. named ∙ sym own)

free_of :
    (idb : IScoreDb) (reload : Bool)
    → (not reload && is_calculating idb) ≡ false
    → IsLetThrough idb reload
free_of idb true h = inr refl
free_of idb false h = inl h

-- A request of a calculation, by the answer: the one that a calculation runs is given exactly to a
-- request that is no reload while one runs, and changes nothing. Any other request is run at the
-- height that its header names, the one after the last calculation for a header of height 0, where
-- that is above the last calculation; if there is no such height, for no header loads or it is not
-- above, it is refused, and no calculation runs.
pub accept_calculate_cases :
    (idb : IScoreDb) (reload : Bool) (header : Option ℕ)
    → let (idb', status) = accept_calculate idb reload header in
      Accepted idb reload header idb' status
unfolding accept_calculate
accept_calculate_cases idb reload header = elim (Bool-cases (not reload && is_calculating idb)) [
  | inl guarded ↦
      rw guarded (is_dropped refl (ground (arith, guarded)) (ground (arith, guarded)) refl)
  | inr free ↦
      let through : IsLetThrough idb reload = free_of idb reload free in
      rw free (let_through idb reload header through)
]

-- A rollback of the account DB to a height that both checks let pass is to a height that the last
-- calculation had reached, leaves no calculation that runs and none to reload, and a last
-- calculation below the height.
pub rollback_ends_calculation :
    (idb : IScoreDb) (to : ℕ)
    → check_rollback idb to ≡ true
    → check_account_db_rollback idb to ≡ true
    → let idb' = rollback_account_db_block_info idb in
      (is_calculating idb' ≡ false)
      × (need_iiss_data_reload idb' ≡ false)
      × (idb'.info.calc_done < to)
      × (to ≤ idb.info.calc_done)
unfolding check_rollback check_account_db_rollback rollback_account_db_block_info is_calculating
    need_iiss_data_reload
rollback_ends_calculation idb to passed reached = ground arith
