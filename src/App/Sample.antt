-- ===== src/App/Sample.antt =====
-- A concrete world, for the tests of the applications.
use rustion.Prelude.{ℕ, ◌==◌, not, true, false, none, some, ok, [], ◌∷◌, if◌then◌else◌}
use rustion.Prelude.Text.{Text, codes}
use rustion.Casbin.Rules.{Uuid}
use rustion.Server.Sample.{alice}
use rustion.App.Bastion.{Bastion, no_app}
use rustion.App.World.{World, InternalUuids, Target, TargetSecretName, Window}

abbrev pub sample_uuids : InternalUuids
sample_uuids = record {
  obj_login = 101;
  obj_admin = 102;
  obj_player = 103;
  act_shell = 104;
  act_pty = 105;
  act_exec = 106;
  act_login = 107;
  act_direct_tcpip = 108;
}

abbrev pub web : Target
web = record {
  id = 50;
  name = codes "web";
  hostname = codes "web.example";
  port = 22;
  server_public_key = [];
  description = none;
  is_active = true;
  updated_by = 0;
  updated_at = 0;
}

abbrev pub root_on_web : TargetSecretName
root_on_web = record {
  pid = 60;
  id = 61;
  target_id = 50;
  target_name = codes "web";
  secret_id = 62;
  secret_user = codes "root";
}

-- It grants all but `denied`, and its target takes every channel.
abbrev pub world : Uuid → World ℕ
world denied = record {
  enforce = λ t sub obj act ip. ok (not (act == denied));
  list_targets_for_user = λ t u. ok (root_on_web ∷ []);
  get_target_by_id = λ t id. ok (if id == 50 then some web else none);
  connect_to_target = λ t target secret. ok (some 1);
  open_channel_on = λ t handle request. ok tt;
  refuses = λ t e. none;
  enable_record = false;
  record_input = false;
  new_recording = λ t. 70;
  recording_stored = λ t r. true;
}

abbrev pub window : Window
window = record { col_width = 80; row_height = 24; pix_width = 0; pix_height = 0 }

-- A connection that alice has logged in on, as `alice@second@third`.
abbrev pub logged_in : Text → Text → Bastion ℕ
logged_in second third = record {
  user = some alice;
  login_parse = some (record { user = codes "alice"; second = second; third = third });
  client_ip = some 9;
  app = no_app;
  window_size = none;
  pty_modes = none;
  pty_term = none;
}
