-- ===== src/App/World.antt =====
-- What the applications act on: the backend, the SSH session, and the connection to a target. All
-- that they do there is a trace, newest event first, and all answers are functions of the trace so
-- that they may change from call to call.
use rustion.Prelude.{ℕ, Bool, Option, Result, List}
use rustion.Prelude.Text.{Text}
use rustion.Casbin.Rules.{Uuid, Error, RusshError}
use rustion.Server.User.{User}

-- `Target` and `TargetSecretName` of src/database/models.
pub record Target : Type 0 where
  pub id : Uuid
  pub name : Text
  pub hostname : Text
  pub port : ℕ
  pub server_public_key : Text
  pub description : Option Text
  pub is_active : Bool
  pub updated_by : Uuid
  pub updated_at : ℕ

pub record TargetSecretName : Type 0 where
  pub pid : Uuid
  pub id : Uuid
  pub target_id : Uuid
  pub target_name : Text
  pub secret_id : Uuid
  pub secret_user : Text

-- `InternalUuids` of src/database/common.rs.
pub record InternalUuids : Type 0 where
  pub obj_login : Uuid
  pub obj_admin : Uuid
  pub obj_player : Uuid
  pub act_shell : Uuid
  pub act_pty : Uuid
  pub act_exec : Uuid
  pub act_login : Uuid
  pub act_direct_tcpip : Uuid

-- `Request` of src/server/app/connect_target.rs.
pub data Request : Type 0 where
  shell : Request
  exec : Text → Request
  open_direct_tcpip : Text → ℕ → Text → ℕ → Request

-- A window: columns, rows and their pixels.
pub record Window : Type 0 where
  pub col_width : ℕ
  pub row_height : ℕ
  pub pix_width : ℕ
  pub pix_height : ℕ

-- The modes of a terminal, by their numbers.
abbrev pub Modes : Type 0
Modes = List (ℕ × ℕ)

-- What is sent to the target over a handle of russh's client.
pub data Call : Type 0 where
  open_channel : Request → Call
  request_pty : Text → Window → Modes → Call
  request_shell : Call
  request_exec : Text → Call
  send : Text → Call
  send_eof : Call
  change_window : Window → Call

-- What is sent to the client over russh's server session.
pub data Reply : Type 0 where
  success failure close : Reply

-- What is told to a recorder, a `Session` of src/asciinema/session.rs.
pub data RecorderCall : Type 0 where
  handle_input handle_output : Text → RecorderCall
  handle_marker : Text → RecorderCall
  handle_resize : ℕ → ℕ → RecorderCall
  handle_exit : ℕ → RecorderCall

-- The tasks that the applications with a screen start, and that run on by themselves.
pub data Task : Type 0 where
  prompt_password : User → Task
  select_target : User → List TargetSecretName → ℕ → Task
  admin_shell player_screen : Uuid → Task

pub data Event : Type 0 where
  -- `enforce` answered for a subject, an object and an action.
  enforced : Uuid → Uuid → Uuid → Bool → Event
  -- A call to the target, with the user and the target's secret for which it is made.
  called : Option Uuid → Option Uuid → ℕ → Call → Event
  replied : ℕ → Reply → Event
  -- A connection to the target was asked for, for a user and a target's secret.
  connected : Option Uuid → Uuid → Event
  -- A recording was begun on a channel, and an event went to the recorder.
  recorder_made : ℕ → Uuid → Event
  recorded : Uuid → RecorderCall → Event
  -- The log row of a request that succeeded on a target.
  logged : Request → Target → Event
  -- What an application with a screen does: bytes put into its tty, a task started, a log row.
  typed : Text → Event
  started : Task → Event
  wrote : Text → Text → Event
  -- `session.request_failure()`.
  request_failed : Event

abbrev pub Trace : Type 0
Trace = List Event

-- The answers. A handle is a number; a call that the other side refuses fails with an error.
pub record World (Ip : Type 0) : Type 0 where
  pub enforce : Trace → Uuid → Uuid → Uuid → Option Ip → Result Error Bool
  -- `list_targets_for_user` and `get_target_by_id` for active targets only.
  pub list_targets_for_user : Trace → Uuid → Result Error (List TargetSecretName)
  pub get_target_by_id : Trace → Uuid → Result Error (Option Target)
  pub connect_to_target : Trace → Target → Uuid → Result Error (Option ℕ)
  pub open_channel_on : Trace → ℕ → Request → Result RusshError (Unit {0})
  pub refuses : Trace → Event → Option Error
  pub enable_record : Bool
  pub record_input : Bool
  pub new_recording : Trace → Uuid
  pub recording_stored : Trace → Uuid → Bool
