-- ===== src/Search/Stage.antt =====
-- gocode/cmd/aioagent/main.go: the search of the disk, from the choice of the searcher to the list
-- that the scanner is given. The channel between a searcher and the consumer is the list of what
-- was sent on it; the second searcher gets a new channel, with a consumer that goes on with the
-- same list. `os.Exit` and its code end the program.
pub mod Covers
use cramc.Prelude.{
  ℕ, zero, suc, ◌+◌, ◌-◌, ◌*◌, ◌/◌, ◌%◌, ◌^◌, ◌≤◌, ◌<◌, String, ◌≡◌, refl, sym, ap, ◌∙◌, ◌≢◌, ◌↔◌,
  ◌⊎◌, inl, inr, Bool, true, false, not, ◌&&◌, ◌||◌, Option, none, some, List, [], ◌∷◌, ◌++◌, map,
  append-nil, append_assoc, arith, ltb, leb, ◌==◌, if◌then◌else◌, Bool-cases, Option-cases, length,
  take, drop, replicate, any, All, length-append, length-drop, take-append, drop-append, length-map,
  get_elem?, set, erase_at, get_elem?-append, set-append, erase_at-append, get_elem?-length, Bytes,
  codes, text_eq, text_eq_iff, text_eq_refl, text_eq-append, text_ne,
}
use cramc.Prelude.Outcome.{
  GoError, Outcome, ok, err, panic, blocked, ◌>>=◌, ◌>>◌, invalid_input,
  fallback_to_compatible_solution, unsupported_platform,
}
use cramc.Search.Walk.{Found}
use cramc.Search.OnDisk.{search_consumer}

-- `isElevated`, `isNTFS`, `*flNoPriv` and `common.IsRunningOnWin`.
pub record Flags : Type 0 where
  pub is_elevated : Bool
  pub is_ntfs : Bool
  pub no_priv : Bool
  pub is_running_on_win : Bool

-- `triggeredErrFallback` and what was sent, or how the program ends.
pub data Searched : Type 0 where
  searched : Bool → List Bytes → Searched
  exited : ℕ → Searched
  crashed waiting : Searched

-- The goroutine of the search of the file table: which errors fall back, and which end the program.
abbrev pub mft_searched : Outcome Found → Searched
mft_searched (ok f) = searched false f.sent
mft_searched (err invalid_input) = exited 5
mft_searched (err fallback_to_compatible_solution) = searched true []
mft_searched (err unsupported_platform) = searched true []
mft_searched (err _) = exited 2
mft_searched panic = crashed
mft_searched blocked = waiting

-- The first searcher, where the booster can be used, and else only the mark of the fallback.
unfoldable pub first_search : Flags → Outcome Found → Searched
first_search flags mft =
    if flags.is_elevated && flags.is_ntfs && not flags.no_priv
    then mft_searched mft
    else searched flags.is_running_on_win []

-- The second searcher, and `searcherFoundList` behind both.
unfoldable pub second_search : Flags → (Bytes → Outcome ℕ) → Found → Searched → Searched
second_search flags on_disk walk (searched fallback sent) =
    let first = search_consumer on_disk sent in
    if not flags.is_running_on_win || fallback || flags.no_priv
    then searched fallback (first ++ search_consumer on_disk walk.sent)
    else searched fallback first
second_search flags on_disk walk (exited code) = exited code
second_search flags on_disk walk crashed = crashed
second_search flags on_disk walk waiting = waiting

unfoldable pub search_stage : Flags → (Bytes → Outcome ℕ) → Outcome Found → Found → Searched
unfolding first_search second_search
search_stage flags on_disk mft walk = second_search flags on_disk walk (first_search flags mft)
