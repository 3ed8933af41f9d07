-- ===== src/Common.antt =====
-- gocode/common/datamodels.go: the records that the parts of the program hand to one another. An
-- `int64` message id is kept as a natural number (the client takes it from the clock in
-- milliseconds), and a JSON tag has no counterpart.
use cramc.Prelude.{ℕ, Bool, List, Bytes}

pub record SingleHardenMeasure : Type 0 where
  pub action : Bytes
  pub type : Bytes
  pub dest : Bytes

pub record SingleVirusSolution : Type 0 where
  pub name : Bytes
  pub dest_module : Bytes
  pub action : Bytes
  pub must_harden : Bool
  pub allow_repeated_harden : Bool
  pub harden_measures : List SingleHardenMeasure

pub record CramcCleanupDb : Type 0 where
  pub version : ℕ
  pub solutions : List SingleVirusSolution

pub record YaraScanResult : Type 0 where
  pub detected_rule : Bytes
  pub file_path : Bytes

pub record IpcSingleDocToBeSanitized : Type 0 where
  pub path : Bytes
  pub action : Bytes
  pub detection_name : Bytes
  pub dest_module : Bytes

pub record IpcServerControl : Type 0 where
  pub control_action : Bytes

pub record IpcMessageResp : Type 0 where
  pub client_id : Bytes
  pub message_id : ℕ
  pub result_code : ℕ
  pub additional_msg : Bytes

pub record IpcReqMessageBase : Type 0 where
  pub client_id : Bytes
  pub message_id : ℕ
  pub msg_type : Bytes
  pub msg_data : Bytes

pub record HardeningAction : Type 0 where
  pub name : Bytes
  pub allow_repeated_harden : Bool
  pub action_lst : List SingleHardenMeasure
