-- ===== src/Engine/State.antt =====
-- The state of include/yijinjing/paged/PageEngine.h: clients, counts of the users of each page
-- file, and the buffers that the engine keeps mapped.
use yijinjing_lite.Prelude.{ℕ, List, Option, Bool}
use yijinjing_lite.Map.{Map, Key}
use yijinjing_lite.Comm.{FileKey, comm_msg_eq, comm_msg_lt}
use yijinjing_lite.Comm.Order.{comm_msg_eq_iff}

instance abbrev pub file_key : Key FileKey
file_key = record { beq = comm_msg_eq; beq_iff = comm_msg_eq_iff; before = comm_msg_lt }

pub record PageClientInfo : Type 0 where
  pub user_index_vec : List ℕ
  pub reg_nano : ℕ
  pub pid : ℕ
  pub hash_code : ℕ
  pub is_writing : Bool
  pub is_strategy : Bool
  pub rid_start : ℕ
  pub rid_end : ℕ
  pub trade_engine_vec : List ℕ

-- The tasks that the engine runs in turn; `base` does nothing.
pub data Task : Type 0 where
  base pid_check temp_page : Task

pub record EngineState : Type 0 where
  pub client_journals : Map (List ℕ) PageClientInfo
  pub pid_client : Map ℕ (List (List ℕ))
  pub file_writer_counts : Map FileKey ℕ
  pub file_reader_counts : Map FileKey ℕ
  -- a null buffer is `none`
  pub file_addrs : Map (List ℕ) (Option ℕ)
  pub tasks : Map (List ℕ) Task
  pub comm_file : List ℕ
  pub temp_page_path : List ℕ
  pub max_idx : ℕ
