-- ===== src/Hardener/Effects.antt =====
-- Theorems on the measures of gocode/hardener/tinyActions.go that replace a file or directory.
use cramc.Prelude.{◌≡◌, false, Bytes, codes, text_eq, text_eq_refl}
use cramc.Hardener.{Os, read_only, f_harden_rm_replace_dir_set_ro, f_harden_replace_file_set_ro}

-- On every path that is not itself "file" or "dir", the two measures that replace a file or a
-- directory end without making anything read-only: the path stands in the place of the type in
-- their last call. A file is replaced by a directory made with mode 0400, and a directory by a
-- file with the mode that it is created with.
pub replacing_without_read_only :
    (os : Os) (p : Bytes) (fs : os.Files)
    → text_eq p (codes "file") ≡ false
    → text_eq p (codes "dir") ≡ false
    → (f_harden_rm_replace_dir_set_ro os (codes "file") p fs
        ≡ os.mkdir_all p read_only (os.remove_all p fs))
      × (f_harden_replace_file_set_ro os (codes "dir") p fs ≡ os.create p (os.remove_all p fs))
unfolding f_harden_rm_replace_dir_set_ro f_harden_replace_file_set_ro
replacing_without_read_only os p fs f d =
    (rw (text_eq_refl (codes "file")) (rw f (rw d)), rw (text_eq_refl (codes "dir")) (rw f (rw d)))
