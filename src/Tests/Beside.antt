-- ===== src/Tests/Beside.antt =====
-- An agent beside the database of a release.
use cramc.Prelude.{◌≡◌, refl, Bool, true, false, not, none, some, [], ◌∷◌, ◌++◌, codes, text_eq}
use cramc.Prelude.Outcome.{ok, err, invalid_input, unknown_internal_error}
use cramc.Common.{CramcCleanupDb}
use cramc.Release.{release}
use cramc.Release.Handover.{load_database-release}
use cramc.Agent.{AgentFlags, AgentEnv, load_database}
use cramc.Tests.Crypto.{tagging, tagging-IsAead, nonce}
use cramc.Tests.Pipeline.{solution}
use cramc.Tests.Release.{
  decode_hex, decode_hex-IsHexDecoder, env, rules, encrypting, disk, encrypting-Converts,
  encrypting-Encrypts, json_there,
}

abbrev pub agent : AgentEnv
agent = record {
  stat = λ p. some (not (text_eq p (codes "ipt_yrscan.lst")));
  executable = ok (codes "app/cramc");
  dir = λ p. codes "app";
  join = λ d n. d ++ b'/' ∷ n;
  read_error = λ p. none;
  open_error = λ p. invalid_input;
  spare = [];
  decode_string = decode_hex;
  unmarshal_db = λ json. ok (record { version = 4; solutions = solution ∷ [] });
  update = record {
    new_request_error = none;
    do_request = err unknown_internal_error;
    unmarshal = λ b. err invalid_input;
  };
  booster = record {
    current_user = ok tt;
    open_process_token = none;
    token_is_elevated = true;
    get_volume_information = λ root. ok (codes "NTFS");
  };
  is_running_on_win = true;
}

abbrev pub agent_flags : Bool → AgentFlags
agent_flags external = record {
  action_path = codes "C:\\Users";
  dry_run = false;
  enable_hardening = true;
  no_disk_scan = external;
  help = false;
  no_priv = false;
  skip_upd_chk = false;
}

abbrev pub db : CramcCleanupDb
db = record { version = 4; solutions = solution ∷ [] }

load_database-release_example :
    load_database tagging agent (agent_flags true) (release tagging env rules encrypting disk).1
    ≡ ok db
load_database-release_example =
    load_database-release tagging env rules encrypting agent (agent_flags true) disk (codes "{}")
      nonce (codes "app/cramc") db tagging-IsAead decode_hex-IsHexDecoder encrypting-Encrypts
      encrypting-Converts json_there refl refl refl refl refl
