-- ===== src/Scanner/Yara.antt =====
-- gocode/yarax_scanner/yara_call.go: `ScanFilesWithYara`. The packages zip and os and the scanner
-- of yara-x are parameters; their errors are only logged, so `none` stands for any of them.
pub mod Detected
use cramc.Prelude.{
  ℕ, zero, suc, ◌+◌, ◌-◌, ◌*◌, ◌/◌, ◌%◌, ◌^◌, ◌≤◌, ◌<◌, String, ◌≡◌, refl, sym, ap, ◌∙◌, ◌≢◌, ◌↔◌,
  ◌⊎◌, inl, inr, Bool, true, false, not, ◌&&◌, ◌||◌, Option, none, some, List, [], ◌∷◌, ◌++◌, map,
  append-nil, append_assoc, arith, ltb, leb, ◌==◌, if◌then◌else◌, Bool-cases, Option-cases, length,
  take, drop, replicate, any, All, length-append, length-drop, take-append, drop-append, length-map,
  get_elem?, set, erase_at, get_elem?-append, set-append, erase_at-append, get_elem?-length, Bytes,
  codes, text_eq, text_eq_iff, text_eq_refl, text_eq-append, text_ne,
}
use cramc.Prelude.Outcome.{Outcome, ok, ◌>>=◌}
use cramc.Common.{YaraScanResult}
use cramc.Paths.{path_ext}

pub record YaraEnv : Type 1 where
  pub Archive : Type 0
  pub Entry : Type 0
  pub open_reader : Bytes → Option Archive
  pub open_entry : Archive → Bytes → Option Entry
  pub read_all : Entry → Option Bytes
  pub read_file : Bytes → Option Bytes
  -- `Scan`, and the identifiers of its matching rules
  pub scan : Bytes → Option (List Bytes)

abbrev pub and_then : {A B : Type 0} → Option A → (A → Option B) → Option B
and_then none f = none
and_then (some a) f = f a

module _ (env : YaraEnv) where
  -- `decompressMacroBin`
  unfoldable pub decompress_macro_bin : Bytes → Option Bytes
  decompress_macro_bin f_path =
      and_then (env.open_reader f_path)
        (λ z_rd. and_then (env.open_entry z_rd (codes "xl/vbaProject.bin")) env.read_all)

  -- What of a file is scanned: `len(fExt) > 4` is a zipped workbook.
  unfoldable pub content_of : Bytes → Option Bytes
  unfolding decompress_macro_bin
  content_of filep =
      if ltb 4 (length (path_ext filep)) then decompress_macro_bin filep else env.read_file filep

  abbrev pub detection : Bytes → Bytes → YaraScanResult
  detection filep rule = record { detected_rule = rule; file_path = filep }

  abbrev pub detections : Bytes → Option (List Bytes) → List YaraScanResult
  detections filep none = []
  detections filep (some rules) = map (detection filep) rules

  -- One round of the loop: what it sends.
  unfoldable pub scan_file : Bytes → List YaraScanResult
  scan_file filep = detections filep (and_then (content_of filep) env.scan)

  unfoldable pub scan_files_with_yara : List Bytes → List YaraScanResult
  scan_files_with_yara [] = []
  scan_files_with_yara (filep ∷ det_list) = scan_file filep ++ scan_files_with_yara det_list

-- `LoadRuleAndCreateYaraScanner`, over `yarax.ReadFrom` and `yarax.NewScanner`.
unfoldable pub load_rule_and_create_yara_scanner :
    {R : Type 0} → (Bytes → Outcome R) → (R → YaraEnv) → Bytes → Outcome YaraEnv
load_rule_and_create_yara_scanner read_from new_scanner rules = do
  yr_rules ← read_from rules
  ok (new_scanner yr_rules)
