-- ===== src/Tests/Agent.antt =====
-- An agent beside an encrypted database and encrypted rules, on a machine with one infected file.
use mathlib.Core.List.{Memᴰ}
use mathlib.Core.List.Memᴰ
use cramc.Prelude.{refl, false, none, some, [], ◌∷◌, map, if◌then◌else◌, Bytes, codes, text_eq}
use cramc.Prelude.Outcome.{ok, err, panic, blocked}
use cramc.Common.{YaraScanResult}
use cramc.Disk.{Disk}
use cramc.Crypto.RoundTrip.{xchacha20_decrypt-encrypt}
use cramc.Search.Walk.{Nodes, nil, cons, file}
use cramc.Search.Walk.Complete.{files}
use cramc.Search.Agreement.{row_of}
use cramc.Scanner.ResultText.RoundTrip.{result_text}
use cramc.Scanner.Yara.{YaraEnv}
use cramc.Agent.{Globals, read_file}
use cramc.Agent.Main.{World}
use cramc.Tests.Crypto.{tagging, tagging-IsAead, nonce}
use cramc.Tests.Pipeline.{found}
use cramc.Tests.Release.{decode_hex}

abbrev key : Bytes
key = elim (decode_hex (codes "1928da3545b48068e024d06f2f132c728eabcd933a8659e578d7a82fde0cd948")) [
  | ok b ↦ b
  | err e ↦ []
  | panic ↦ []
  | blocked ↦ []
]

abbrev sealed : Bytes → Bytes
sealed text = (xchacha20_decrypt-encrypt tagging key nonce text [] tagging-IsAead refl refl).0

abbrev disk : Disk
disk q =
    if text_eq q (codes "app/cramc_db.bin")
    then some (sealed (codes "{}"))
    else if text_eq q (codes "app/unified.yar.bin")
    then some (sealed (codes "rules"))
    else none

abbrev globals : Globals
globals = record { cleanup_db = none; dry_run_only = false; enable_hardening = false }

abbrev scanner : YaraEnv
scanner = record {
  Archive = Bytes;
  Entry = Bytes;
  open_reader = λ p. none;
  open_entry = λ archive name. none;
  read_all = λ entry. none;
  read_file = λ p. some (codes "virus");
  scan = λ content. some (codes "Laroux" ∷ []);
}

abbrev tree : Nodes
tree = cons (file (codes "a.xls")) nil

abbrev users : Bytes
users = codes "\\Users"

abbrev world : World
world = record {
  open_stream = ok (map (row_of (codes "/Users")) (files [] tree));
  root_error = none;
  read_dir_error = none;
  nodes = tree;
  on_disk = λ p. ok 10;
  YaraRules = Bytes;
  read_from = λ bin. ok bin;
  new_scanner = λ rules. scanner;
  ipt_list = ok (record { content = result_text (found ∷ []); read_error = none });
}

abbrev infected : YaraScanResult
infected = record { detected_rule = codes "Laroux"; file_path = codes "C:/Users/a.xls" }
