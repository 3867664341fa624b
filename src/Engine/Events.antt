-- ===== src/Engine/Events.antt =====
-- engine/events.go: the vocabulary of the log and the payloads of its events.
--
-- A JSON object is the list of its fields with their raw JSON. A float64 score is known by the
-- tests that the source makes on it.
pub mod Kinds
use awf.Prelude.{ℕ, Bytes, Bool, List, Option, String}
use awf.Prelude.Int.{ℤ}
use awf.Prelude.Map.{Map}

abbrev pub Object : Type 0
Object = Map Bytes

-- agent.ThreadTurn, which the fold only carries: its raw JSON.
abbrev pub Transcript : Type 0
Transcript = Bytes

pub record RunStartedAssetFile : Type 0 where
  pub path : Bytes
  pub ref : Bytes
  pub size : ℤ
  pub mode : ℕ

pub record RunStartedAsset : Type 0 where
  pub declared_path : Bytes
  pub is_dir : Bool
  pub files : List RunStartedAssetFile

pub record ResolvedRuntime : Type 0 where
  pub ref : Bytes
  pub version : String
  pub container : String

pub record RunStartedData : Type 0 where
  pub run_id : String
  pub workflow_digest : String
  pub structural_digest : String
  pub input_ref : Bytes
  pub assets : Map RunStartedAsset
  pub input_files : Map Bytes

pub record RunResumedData : Type 0 where
  pub epoch : ℕ

pub record CallStartedData : Type 0 where
  pub input_ref : Bytes
  pub input_files : Map Bytes
  pub runtimes : List ResolvedRuntime

pub record NodeCompletedData : Type 0 where
  pub outcome : String
  pub exit_code : Option ℤ
  pub outputs_ref : Bytes
  pub stdout_ref : Bytes
  pub files : Map Bytes
  pub snapshot_ref : Bytes
  pub container : Bytes
  pub transcript_ref : Bytes
  pub node_key : String
  pub node_subtree_digest : String
  pub session_ref : Bytes

pub record GateAttemptData : Type 0 where
  pub n : ℕ
  pub attempt_outcome : String
  pub verdict_ref : Bytes

pub record MapItemData : Type 0 where
  pub n : ℕ
  pub status : String
  pub image_digest : String
  pub reason : String
  pub outcome : String
  pub cause : Bytes

pub record SignalReceivedData : Type 0 where
  pub name : Bytes
  pub seq : ℕ
  pub payload_ref : Bytes

pub data ScoreClass : Type 0 where
  non_finite non_positive positive : ScoreClass

pub record SelectedSkill : Type 0 where
  pub id : Bytes
  pub score : ScoreClass

pub record SkillsSelectedData : Type 0 where
  pub library : Bytes
  pub library_digest : Bytes
  pub router : Bytes
  pub router_version : Bytes
  pub router_params : Map Bytes
  pub selected : List SelectedSkill

-- json.Unmarshal at each payload type; `none` is its error. An object may be JSON's null.
pub record Json : Type 0 where
  pub run_started : Bytes → Option RunStartedData
  pub run_resumed : Bytes → Option RunResumedData
  pub call_started : Bytes → Option CallStartedData
  pub node_completed : Bytes → Option NodeCompletedData
  pub branch_taken : Bytes → Option String
  pub loop_iter : Bytes → Option ℕ
  pub gate_attempt : Bytes → Option GateAttemptData
  pub react_round : Bytes → Option ℕ
  pub map_item : Bytes → Option MapItemData
  pub map_frontier : Bytes → Option (List MapItemData)
  pub signal_received : Bytes → Option SignalReceivedData
  pub skills_selected : Bytes → Option SkillsSelectedData
  pub node_invalidated : Bytes → Option (List Bytes)
  pub object : Bytes → Option (Option Object)
  pub transcript : Bytes → Option Transcript
