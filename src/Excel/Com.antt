-- ===== src/Excel/Com.antt =====
-- Excel's object model as gocode/sanitizer_ole/excelop_windows.go calls it through go-ole. An open
-- workbook is an abstract value; the calls return an error or nothing, and the workbook after
-- them. `VBComponents.Item` counts from 1, and outside the collection it fails, which
-- `oleutil.MustCallMethod` turns into a panic.
use cramc.Prelude.{
  ℕ, suc, ◌≡◌, Bool, Option, none, some, List, [], length, get_elem?, set, erase_at, Bytes,
}
use cramc.Prelude.Outcome.{GoError}

-- A module of a workbook's VBA project.
pub record Component : Type 0 where
  pub name : Bytes
  pub code : List Bytes

pub record Excel : Type 1 where
  pub Workbook : Type 0
  pub has_vb_project : Workbook → Bool
  -- the error of reading the property VBProject
  pub vb_project : Workbook → Option GoError
  pub count : Workbook → ℕ
  pub item : Workbook → ℕ → Option Component
  -- `CodeModule.DeleteLines` from line 1, of the n-th component, with a number of lines
  pub delete_lines : ℕ → ℕ → Workbook → Option GoError × Workbook
  pub add_from_string : ℕ → List Bytes → Workbook → Option GoError × Workbook
  pub remove : ℕ → Workbook → Option GoError × Workbook

-- What Microsoft documents of these calls: the components are a list numbered from 1, and a call
-- that succeeds does to that list what its name says. Only the text that is added to an empty
-- module is said to be its code: where it goes among other code depends on the procedures there.
pub record IsExcel (x : Excel) : Type 0 where
  pub components : x.Workbook → List Component
  pub count_is : (w : x.Workbook) → x.count w ≡ length (components w)
  pub item_is : (w : x.Workbook) (i : ℕ) → x.item w (suc i) ≡ get_elem? (components w) i
  pub deleted :
      (w w' : x.Workbook) (i : ℕ) (c : Component)
      → get_elem? (components w) i ≡ some c
      → x.delete_lines (suc i) (length c.code) w ≡ (none, w')
      → components w' ≡ set (components w) i (record { name = c.name; code = [] })
  pub added :
      (w w' : x.Workbook) (i : ℕ) (c : Component) (text : List Bytes)
      → get_elem? (components w) i ≡ some c
      → c.code ≡ []
      → x.add_from_string (suc i) text w ≡ (none, w')
      → components w' ≡ set (components w) i (record { name = c.name; code = text })
  pub removed :
      (w w' : x.Workbook) (i : ℕ)
      → x.remove (suc i) w ≡ (none, w')
      → components w' ≡ erase_at (components w) i
