-- ===== src/Context/Info.antt =====
-- The DB information of core/db_management.go (DBInfoData, BlockInfo) and the methods of IScoreDB
-- in core/context.go that read and set it. A hash is the number of its 32 bytes.
pub mod Heights
use rewardcalculator.Base.{
  ℕ, ◌+◌, Bool, true, false, Option, none, some, not, ◌==◌, ltb, leb, ◌&&◌, if◌then◌else◌,
}
use rewardcalculator.Base.Words.{wrap64}

pub record BlockInfo : Type 0 where
  pub block_height : ℕ
  pub block_hash : ℕ

pub record DbInfoData : Type 0 where
  pub db_count : ℕ
  pub query_db_is_zero : Bool
  pub current : BlockInfo
  pub calc_done : ℕ
  pub prev_calc_done : ℕ
  pub calculating : ℕ
  pub toggle_bh : ℕ

-- The data in memory, and what `writeToDB` last wrote to the management DB.
pub record IScoreDb : Type 0 where
  pub info : DbInfoData
  pub stored : DbInfoData

unfoldable pub write_to_db : IScoreDb → IScoreDb
write_to_db idb = record idb { stored = idb.info }

-- BlockInfo.set: `copy` of a nil slice leaves the array as it is.
unfoldable pub set : BlockInfo → ℕ → Option ℕ → BlockInfo
set bi block_height none = record bi { block_height = block_height }
set bi block_height (some h) = record { block_height = block_height; block_hash = h }

unfoldable pub check_value : BlockInfo → ℕ → ℕ → Bool
check_value bi block_height block_hash =
    bi.block_height == block_height && bi.block_hash == block_hash

unfoldable pub toggle_account_db : IScoreDb → ℕ → IScoreDb
unfolding write_to_db
toggle_account_db idb block_height =
    if idb.info.toggle_bh == block_height
    then idb
    else write_to_db (record idb {
      info = record idb.info {
        query_db_is_zero = not idb.info.query_db_is_zero;
        toggle_bh = block_height;
      };
    })

unfoldable pub set_calculating_bh : IScoreDb → ℕ → IScoreDb
unfolding write_to_db
set_calculating_bh idb block_height =
    write_to_db (record idb { info = record idb.info { calculating = block_height } })

unfoldable pub reset_calculating_bh : IScoreDb → IScoreDb
unfolding write_to_db
reset_calculating_bh idb =
    write_to_db (record idb { info = record idb.info { calculating = idb.info.calc_done } })

unfoldable pub is_calculating : IScoreDb → Bool
is_calculating idb = ltb idb.info.calc_done idb.info.calculating

unfoldable pub set_current_block_info : IScoreDb → ℕ → Option ℕ → IScoreDb
unfolding write_to_db set
set_current_block_info idb block_height block_hash = write_to_db (record idb {
  info = record idb.info { current = set idb.info.current block_height block_hash };
})

unfoldable pub set_calc_done_bh : IScoreDb → ℕ → IScoreDb
unfolding write_to_db
set_calc_done_bh idb block_height = write_to_db (record idb {
  info = record idb.info { prev_calc_done = idb.info.calc_done; calc_done = block_height };
})

unfoldable pub rollback_current_block_info : IScoreDb → ℕ → Option ℕ → IScoreDb
unfolding write_to_db set_current_block_info
rollback_current_block_info idb block_height block_hash =
    write_to_db (set_current_block_info idb block_height block_hash)

unfoldable pub rollback_account_db_block_info : IScoreDb → IScoreDb
unfolding write_to_db
rollback_account_db_block_info idb = write_to_db (record idb {
  info = record idb.info {
    calc_done = idb.info.prev_calc_done;
    calculating = idb.info.prev_calc_done;
  };
})

-- core/msg_rollback.go: `true` where a rollback to the height is not refused.
unfoldable pub check_rollback : IScoreDb → ℕ → Bool
check_rollback idb rollback = not (leb rollback idb.info.prev_calc_done)

unfoldable pub check_account_db_rollback : IScoreDb → ℕ → Bool
check_account_db_rollback idb rollback = not (ltb idb.info.calc_done rollback)

-- core/manager.go
unfoldable pub need_iiss_data_reload : IScoreDb → Bool
need_iiss_data_reload idb = not (idb.info.calc_done == idb.info.calculating)

-- DoQueryCalculateStatus of core/msg_calculate.go: whether a calculation runs, and its height.
unfoldable pub do_query_calculate_status : IScoreDb → Bool × ℕ
unfolding is_calculating
do_query_calculate_status idb =
    if is_calculating idb then (true, idb.info.calculating) else (false, idb.info.calc_done)

-- The first part of DoCalculate, from `header` to the toggle: what becomes of the request.
pub data CalcStatus : Type 0 where
  ok invalid_data doing invalid_bh duplicate_bh : CalcStatus

-- The header's block height, or the one after the last calculation if that is zero.
unfoldable pub calc_block_height : IScoreDb → ℕ → ℕ
calc_block_height idb header_block_height =
    if header_block_height == 0 then wrap64 (idb.info.calc_done + 1) else header_block_height

-- `header` is the block height of the IISS data's header, `none` where it does not load.
unfoldable pub accept_header : IScoreDb → Option ℕ → IScoreDb × CalcStatus
unfolding reset_calculating_bh calc_block_height set_calculating_bh
accept_header idb none = (reset_calculating_bh idb, invalid_data)
accept_header idb (some header) =
    let block_height = calc_block_height idb header in
    let idb' = set_calculating_bh idb block_height in
    if block_height == idb'.info.calc_done
    then (reset_calculating_bh idb', duplicate_bh)
    else if ltb block_height idb'.info.calc_done
    then (reset_calculating_bh idb', invalid_bh)
    else (idb', ok)

unfoldable pub accept_calculate : IScoreDb → Bool → Option ℕ → IScoreDb × CalcStatus
unfolding is_calculating accept_header
accept_calculate idb reload header =
    if not reload && is_calculating idb then (idb, doing) else accept_header idb header
