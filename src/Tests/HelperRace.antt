-- ===== src/Tests/HelperRace.antt =====
-- Two helpers on an empty disk.
use cramc.Prelude.{◌≡◌, refl, true, false, none, text_eq}
use cramc.Disk.{Disk}
use cramc.Release.{check_file_logical_exists}
use cramc.Helper.{lock_file}
use cramc.Helper.Race.{Machines, in_start, lock_exists, Reach}
use cramc.Helper.Race.Lost.{fresh, lock_lost}

abbrev empty : Disk
empty q = none

empty_free : lock_exists empty ≡ false
unfolding check_file_logical_exists text_eq
empty_free = refl

lock_lost_example :
    (n : Machines) × Reach (fresh empty) n
    × (n.stage 3 ≡ in_start)
    × (n.pipe ≡ true)
    × (n.disk lock_file ≡ none)
    × (lock_exists n.disk ≡ false)
lock_lost_example = lock_lost (fresh empty) 3 4 (λ e. cc) refl refl empty_free refl
