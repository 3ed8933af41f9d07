-- ===== src/Disk.antt =====
-- The files of a disk by their path, as the functions of the packages os and io use them. A path
-- holds a file's bytes, or nothing. Which calls fail is a parameter of each operation.
use cramc.Prelude.{
  ◌≡◌, refl, ◌∙◌, ◌≢◌, inl, inr, Option, none, if◌then◌else◌, Bool-cases, Bytes, text_eq,
  text_eq_refl, text_ne, fun_ext,
}

abbrev pub Disk : Type 0
Disk = Bytes → Option Bytes

-- Writing a file whole, creating it, truncating it; with `none` removing it.
unfoldable pub put : Bytes → Option Bytes → Disk → Disk
put path content disk q = if text_eq q path then content else disk q

module _ (disk : Disk) (path : Bytes) (content : Option Bytes) where
  pub put_same : put path content disk path ≡ content
  unfolding put
  put_same = rw (text_eq_refl path)

  pub put_other : (q : Bytes) → q ≢ path → put path content disk q ≡ disk q
  unfolding put
  put_other q n = rw (text_ne q path n)

-- `os.Rename` of a file that is there: it replaces a file of the new name.
unfoldable pub rename : Bytes → Bytes → Disk → Disk
rename old new disk = put old none (put new (disk old) disk)

pub rename_other :
    (old new : Bytes) (disk : Disk) (q : Bytes) → q ≢ old → q ≢ new → rename old new disk q ≡ disk q
unfolding rename
rename_other old new disk q a b =
    put_other (put new (disk old) disk) old none q a ∙ put_other disk new (disk old) q b

-- Of two writes to one path the second one stands.
pub put_again :
    (disk : Disk) (path : Bytes) (a b : Option Bytes)
    → put path b (put path a disk) ≡ put path b disk
unfolding put
put_again disk path a b =
    fun_ext λ q. elim (Bool-cases (text_eq q path)) [ inl t ↦ rw t refl | inr f ↦ rw f refl ]
