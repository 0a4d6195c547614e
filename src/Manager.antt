-- ===== src/Manager.antt =====
-- The handling of messages: newConnection and HandleMessage of core/msg.go, the beginnings and ends
-- of the handlers in core/msg.go, msg_claim.go, msg_calculate.go and msg_rollback.go, HandleMessage
-- of common/ipc/connection.go, and the count of tasks of core/manager.go, which Close waits for. What
-- a handler does between its AddMsgTask and its DoneMsgTask is in the other modules. A handler that
-- runs as a goroutine is in `starting` before its AddMsgTask, and in `working` until its
-- DoneMsgTask.
pub mod Tasks
mod Tests
use rewardcalculator.Base.{
  ℕ, ◌+◌, ◌-◌, ◌≡◌, Bool, true, false, List, [], ◌∷◌, ◌++◌, ◌==◌, ◌&&◌, ◌||◌, not, if◌then◌else◌,
  leb,
}
use rewardcalculator.Base.Bytes.{Bytes}

abbrev pub msg_version : ℕ
msg_version = 0

abbrev pub msg_claim : ℕ
msg_claim = 1

abbrev pub msg_query : ℕ
msg_query = 2

abbrev pub msg_calculate : ℕ
msg_calculate = 3

abbrev pub msg_commit_block : ℕ
msg_commit_block = 4

abbrev pub msg_commit_claim : ℕ
msg_commit_claim = 5

abbrev pub msg_query_calculate_status : ℕ
msg_query_calculate_status = 6

abbrev pub msg_query_calculate_result : ℕ
msg_query_calculate_result = 7

abbrev pub msg_roll_back : ℕ
msg_roll_back = 8

abbrev pub msg_init : ℕ
msg_init = 9

abbrev pub msg_start_block : ℕ
msg_start_block = 10

abbrev pub msg_debug : ℕ
msg_debug = 1000

pub record Message : Type 0 where
  pub msg : ℕ
  pub contents : Bytes

-- The handlers that newConnection sets.
unfoldable pub has_handler : Bool → ℕ → Bool
has_handler monitor_mode msg =
    msg == msg_version
    || msg == msg_query
    || msg == msg_query_calculate_status
    || msg == msg_query_calculate_result
    || (if monitor_mode
        then msg == msg_debug
        else msg == msg_claim
          || msg == msg_calculate
          || msg == msg_start_block
          || msg == msg_commit_block
          || msg == msg_commit_claim
          || msg == msg_roll_back
          || msg == msg_init)

-- The handlers that do not look at what comes with the message.
abbrev pub has_no_request : ℕ → Bool
has_no_request msg = msg == msg_version || msg == msg_query_calculate_status

-- `tasks` is the counter of the wait group; `failed` an error of HandleMessage, after which no more
-- messages are read of the connection.
pub record Manager : Type 0 where
  pub monitor_mode : Bool
  pub tasks : ℕ
  pub starting : List Message
  pub working : List Message
  pub rolling_back : Bool
  pub failed : Bool

abbrev pub new_manager : Bool → Manager
new_manager monitor_mode = record {
  monitor_mode = monitor_mode;
  tasks = 0;
  starting = [];
  working = [];
  rolling_back = false;
  failed = false;
}

-- `decodes` tells whether MessagePack gives a request of the kind from the bytes.
module _ (decodes : ℕ → Bytes → Bool) where
  abbrev pub gets_request : Message → Bool
  gets_request m = has_no_request m.msg || decodes m.msg m.contents

  -- AddMsgTask and the decoding. A handler that cannot decode returns without DoneMsgTask.
  unfoldable pub begin : Message → Manager → Manager
  begin m s =
      let added = record s { tasks = s.tasks + 1 } in
      if gets_request m then record added { working = m ∷ added.working } else added

  -- The handler of ROLLBACK is no goroutine: it runs before the next message is read, and its error
  -- is that of HandleMessage.
  unfoldable pub begin_rollback : Message → Manager → Manager
  begin_rollback m s =
      let added = record s { tasks = s.tasks + 1 } in
      if gets_request m
      then record added { rolling_back = true }
      else record added { failed = true }

  -- A message without a handler is dropped.
  unfoldable pub handle_message : Message → Manager → Manager
  unfolding has_handler begin_rollback
  handle_message m s =
      if has_handler s.monitor_mode m.msg
      then (if m.msg == msg_roll_back
          then begin_rollback m s
          else record s { starting = m ∷ s.starting })
      else s

  -- DoneMsgTask
  unfoldable pub done : Manager → Manager
  done s = record s { tasks = s.tasks - 1 }
