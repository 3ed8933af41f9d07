-- ===== src/Scanner/Yara/Detected.antt =====
-- Theorems on `ScanFilesWithYara` (gocode/yarax_scanner/yara_call.go).
use mathlib.Core.List.{Memᴰ}
use mathlib.Core.List.Memᴰ
use cramc.Prelude.{
  ◌≤◌, ◌≡◌, refl, ◌↔◌, ◌⊎◌, inl, inr, true, false, Option, none, some, List, [], ◌∷◌, map, arith,
  ltb, Bool-cases, Option-cases, length, Bytes, codes,
}
use cramc.Common.{YaraScanResult}
use cramc.Paths.{path_ext}
use cramc.Scanner.Yara.{
  YaraEnv, and_then, content_of, decompress_macro_bin, detection, detections, scan_file,
  scan_files_with_yara,
}

-- What is to be scanned of a file: the macro part of the archive where the extension is longer than
-- that of ".xls", and the file itself otherwise.
pub record IsMacroPart (env : YaraEnv) (p content : Bytes) : Type 0 where
  pub long_ext : 5 ≤ length (path_ext p)
  pub archive : env.Archive
  pub opened : env.open_reader p ≡ some archive
  pub entry : env.Entry
  pub is_entry : env.open_entry archive (codes "xl/vbaProject.bin") ≡ some entry
  pub is_read : env.read_all entry ≡ some content

pub record IsWhole (env : YaraEnv) (p content : Bytes) : Type 0 where
  pub short_ext : length (path_ext p) ≤ 4
  pub is_read : env.read_file p ≡ some content

abbrev pub IsContent : YaraEnv → Bytes → Bytes → Type 0
IsContent env p content = IsMacroPart env p content ⊎ IsWhole env p content

and_then-some :
    {A B : Type 0} (o : Option A) (f : A → Option B) {b : B}
    → and_then o f ≡ some b
    → (a : A) × (o ≡ some a) × (f a ≡ some b)
and_then-some none f e = cc
and_then-some (some a) f e = (a, refl, e)

content_of-IsContent :
    (env : YaraEnv) (p content : Bytes) → content_of env p ≡ some content → IsContent env p content
unfolding content_of decompress_macro_bin
content_of-IsContent env p content e = elim (Bool-cases (ltb 4 (length (path_ext p)))) [
  | inl t ↦
      let (archive, opened, more) =
        and_then-some (env.open_reader p)
          (λ z_rd. and_then (env.open_entry z_rd (codes "xl/vbaProject.bin")) env.read_all)
          (rw t at e) in
      let (entry, is_entry, is_read) =
        and_then-some (env.open_entry archive (codes "xl/vbaProject.bin")) env.read_all more in
      inl (record {
        long_ext = ground arith;
        archive = archive;
        opened = opened;
        entry = entry;
        is_entry = is_entry;
        is_read = is_read;
      })
  | inr f ↦ inr (record { short_ext = ground arith; is_read = rw f at e })
]

IsContent-content_of :
    (env : YaraEnv) (p content : Bytes) → IsContent env p content → content_of env p ≡ some content
unfolding content_of decompress_macro_bin
IsContent-content_of env p content (inl k) =
    let t : ltb 4 (length (path_ext p)) ≡ true = ground (arith, k.long_ext) in
    rw t (rw k.opened (rw k.is_entry k.is_read))
IsContent-content_of env p content (inr k) =
    let f : ltb 4 (length (path_ext p)) ≡ false = ground (arith, k.short_ext) in rw f k.is_read

-- A match of a rule in the content of a file of the list.
pub record IsDetected (env : YaraEnv) (det_list : List Bytes) (r : YaraScanResult) : Type 0 where
  pub listed : Memᴰ r.file_path det_list
  pub content : Bytes
  pub is_content : IsContent env r.file_path content
  pub rules : List Bytes
  pub scanned : env.scan content ≡ some rules
  pub matched : Memᴰ r.detected_rule rules

module _ (env : YaraEnv) where
  IsDetected-later :
      (p : Bytes) (ps : List Bytes) (r : YaraScanResult)
      → IsDetected env ps r
      → IsDetected env (p ∷ ps) r
  IsDetected-later p ps r d = record {
    listed = Memᴰ.tail d.listed;
    content = d.content;
    is_content = d.is_content;
    rules = d.rules;
    scanned = d.scanned;
    matched = d.matched;
  }

  detections-IsDetected :
      (p : Bytes) (ps : List Bytes) (r : YaraScanResult) (c : Option Bytes)
      → content_of env p ≡ c
      → Memᴰ r (detections env p (and_then c env.scan))
      → IsDetected env (p ∷ ps) r
  detections-IsDetected p ps r none e m = elim m [ ]
  detections-IsDetected p ps r (some content) e m = elim (Option-cases (env.scan content)) [
    | inl n ↦ let m' : Memᴰ r [] = rw n at m in elim m' [ ]
    | inr (rules, s) ↦
        let m' : Memᴰ r (map (detection env p) rules) = rw s at m in
        let (rule, there, same) = Memᴰ.of_map (detection env p) rules m' in
        let d : IsDetected env (p ∷ ps) (detection env p rule) = record {
          listed = Memᴰ.head refl;
          content = content;
          is_content = content_of-IsContent env p content e;
          rules = rules;
          scanned = s;
          matched = there;
        } in
        rw same at d
  ]

  scan_file-mem :
      (r : YaraScanResult) (p : Bytes)
      → r.file_path ≡ p
      → (content : Bytes) → content_of env r.file_path ≡ some content
      → (rules : List Bytes) → env.scan content ≡ some rules
      → Memᴰ r.detected_rule rules
      → Memᴰ r (scan_file env p)
  unfolding scan_file
  scan_file-mem r p e content c rules s m =
      rw (← e) (rw c (rw s (Memᴰ.map (detection env r.file_path) m)))

  sent-IsDetected :
      (ps : List Bytes) (r : YaraScanResult)
      → Memᴰ r (scan_files_with_yara env ps)
      → IsDetected env ps r
  unfolding scan_files_with_yara scan_file
  sent-IsDetected [] r m = elim m [ ]
  sent-IsDetected (p ∷ ps) r m = elim (Memᴰ.append_cases (scan_file env p) m) [
    | inl here ↦ detections-IsDetected p ps r (content_of env p) refl here
    | inr later ↦ IsDetected-later p ps r (sent-IsDetected ps r later)
  ]

  detected_sent :
      (r : YaraScanResult) (content : Bytes) (rules : List Bytes) (ps : List Bytes)
      → content_of env r.file_path ≡ some content
      → env.scan content ≡ some rules
      → Memᴰ r.detected_rule rules
      → Memᴰ r.file_path ps
      → Memᴰ r (scan_files_with_yara env ps)
  unfolding scan_files_with_yara
  detected_sent r content rules [] c s m l = elim l [ ]
  detected_sent r content rules (p ∷ ps) c s m (Memᴰ.head e) =
      Memᴰ.append_left (scan_files_with_yara env ps) (scan_file-mem r p e content c rules s m)
  detected_sent r content rules (p ∷ ps) c s m (Memᴰ.tail l) =
      Memᴰ.append_right (scan_file env p) (detected_sent r content rules ps c s m l)

-- The scan sends a match exactly if its file is on the list, the content of that file can be
-- read (of the entry xl/vbaProject.bin of a zipped workbook, whose extension has more than four
-- bytes), and the rule is one that matches the content: a file that
-- cannot be opened or scanned costs no match of another file.
pub scan_files_with_yara-IsDetected :
    (env : YaraEnv) (det_list : List Bytes) (r : YaraScanResult)
    → Memᴰ r (scan_files_with_yara env det_list) ↔ IsDetected env det_list r
scan_files_with_yara-IsDetected env det_list r = (
  sent-IsDetected env det_list r,
  λ d.
      detected_sent env r d.content d.rules det_list
        (IsContent-content_of env r.file_path d.content d.is_content) d.scanned d.matched d.listed,
)
