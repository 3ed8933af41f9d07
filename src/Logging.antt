-- ===== src/Logging.antt =====
-- gocode/logging/log.go: the logger of both programs. The handler of log/slog writes an entry of at
-- least its level to the standard output and to the file. A level is an integer, `negsuc n` is
-- -(n + 1).
use cramc.Prelude.{
  arith, ◌⊎◌, inl, inr, Bool-cases, ℕ, ◌≡◌, refl, Bool, true, false, Option, none, some, List, [],
  ◌∷◌, ◌++◌, leb, ◌==◌, if◌then◌else◌, Bytes, codes, text_eq,
}
use cramc.Prelude.Outcome.{GoError, Outcome, ok, panic}

pub data Level : Type 0 where
  pos : ℕ → Level
  negsuc : ℕ → Level

abbrev pub leb_level : Level → Level → Bool
leb_level (pos m) (pos n) = leb m n
leb_level (pos m) (negsuc n) = false
leb_level (negsuc m) (pos n) = true
leb_level (negsuc m) (negsuc n) = leb n m

abbrev pub level_trace : Level
level_trace = negsuc 7

abbrev pub level_debug : Level
level_debug = negsuc 3

abbrev pub level_info : Level
level_info = pos 0

abbrev pub level_fatal : Level
level_fatal = pos 12

-- `os.Create`, `os.LookupEnv("RunEnv")`, and `Level.String` of log/slog.
pub record LogEnv : Type 0 where
  pub create_error : Option GoError
  pub run_env : Option Bytes
  pub level_string : Level → Bytes

pub record Entry : Type 0 where
  pub label : Bytes
  pub msg : Bytes

pub record Logger : Type 0 where
  pub level : Level
  pub stdout : List Entry
  pub file : List Entry

module _ (env : LogEnv) where
  -- `LevelNames` with its fallback.
  unfoldable pub level_label : Level → Bytes
  level_label (pos n) = if n == 12 then codes "FATAL" else env.level_string (pos n)
  level_label (negsuc n) = if n == 7 then codes "TRACE" else env.level_string (negsuc n)

  abbrev default_level : Option Bytes → Level
  default_level none = level_info
  default_level (some run_env) = if text_eq run_env (codes "DEBUG") then level_debug else level_info

  abbrev file_created : Option GoError → Outcome Logger
  file_created (some e) = panic
  file_created none = ok (record { level = default_level env.run_env; stdout = []; file = [] })

  -- `NewLogger`
  unfoldable pub new_logger : Outcome Logger
  new_logger = file_created env.create_error

  -- What the handler makes of a call of the logger.
  unfoldable pub log : Level → Bytes → Logger → Logger
  unfolding level_label
  log level msg l =
      if leb_level l.level level
      then (let entry : Entry = record { label = level_label level; msg = msg } in
          record l { stdout = l.stdout ++ entry ∷ []; file = l.file ++ entry ∷ [] })
      else l

  file_created_level :
      (e : Option GoError) {l : Logger}
      → file_created e ≡ ok l
      → l.level ≡ default_level env.run_env
  file_created_level none h = ground (arith, h)
  file_created_level (some e) h = cc

  default_level_cases :
      (o : Option Bytes) → (default_level o ≡ level_info) ⊎ (default_level o ≡ level_debug)
  default_level_cases none = inl refl
  default_level_cases (some run_env) = elim (Bool-cases (text_eq run_env (codes "DEBUG"))) [
    | inl d ↦ inr (rw d refl)
    | inr n ↦ inl (rw n refl)
  ]

  either_level : {l : Logger} → new_logger ≡ ok l → (l.level ≡ level_info) ⊎ (l.level ≡ level_debug)
  unfolding new_logger
  either_level h = rw (file_created_level env.create_error h) (default_level_cases env.run_env)

-- Whatever the environment, a logger that could be made writes a fatal entry to both places under
-- the name FATAL, and drops an entry of the level that has the name TRACE.
new_logger_levels :
    (env : LogEnv) (msg : Bytes) {l : Logger}
    → new_logger env ≡ ok l
    → let entry : Entry = record { label = codes "FATAL"; msg = msg } in
      (log env level_fatal msg l
        ≡ record l { stdout = l.stdout ++ entry ∷ []; file = l.file ++ entry ∷ [] })
      × (log env level_trace msg l ≡ l)
unfolding log
new_logger_levels env msg h = elim (either_level env h) [
  | inl i ↦ (simp i, simp i)
  | inr d ↦ (simp d, simp d)
]
