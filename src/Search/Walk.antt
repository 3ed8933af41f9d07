-- ===== src/Search/Walk.antt =====
-- gocode/fileutils/filesearcher.go: `GeneralWalkthroughSearch`, with `fs.WalkDir` of the standard
-- library over the tree below the action path. A directory knows whether reading it fails; then
-- the walk function is called again with the error, and whatever entries were read are walked.
pub mod Complete
use cramc.Prelude.{
  ℕ, ◌+◌, Bool, true, false, Option, none, some, List, [], ◌∷◌, ◌++◌, if◌then◌else◌, Bytes, codes,
}
use cramc.Prelude.Outcome.{GoError}
use cramc.Paths.{replace_byte}
use cramc.Search.{is_target}

mutual
  -- `file` is any entry that is not a directory.
  pub data Node : Type 0 where
    file : Bytes → Node
    dir : Bytes → Option GoError → Nodes → Node

  pub data Nodes : Type 0 where
    nil : Nodes
    cons : Node → Nodes → Nodes

-- `counter` and what was sent on `outputChan`.
pub record Found : Type 0 where
  pub counter : ℕ
  pub sent : List Bytes

-- `path.Join` of a walked path and an entry's name: the walk starts at ".".
abbrev pub join_name : Bytes → Bytes → Bytes
join_name [] name = name
join_name (c ∷ p) name = (c ∷ p) ++ b'/' ∷ name

module _ (root : Bytes) (allowed_exts : List Bytes) where
  -- `walkFn`; `failed` is whether its `err` is set. It always returns nil.
  unfoldable pub walk_fn : Bytes → Bool → Bool → Found → Found
  walk_fn cur_path is_dir failed f =
      if failed
      then f
      else if is_dir
      then f
      else if is_target allowed_exts cur_path
      then record { counter = f.counter + 1; sent = f.sent ++ (root ++ b'/' ∷ cur_path) ∷ [] }
      else f

  abbrev after_read : Bytes → Option GoError → Found → Found
  after_read p none f = f
  after_read p (some e) f = walk_fn p true true f

  unfoldable mutual
    -- `walkDir`, at the directory with the path `at`, "" for the root.
    pub walk_node : Bytes → Node → Found → Found
    walk_node at (file name) f = walk_fn (join_name at name) false false f
    walk_node at (dir name e ns) f =
        walk_nodes (join_name at name) ns
          (after_read (join_name at name) e (walk_fn (join_name at name) true false f))

    pub walk_nodes : Bytes → Nodes → Found → Found
    walk_nodes at nil f = f
    walk_nodes at (cons n ns) f = walk_nodes at ns (walk_node at n f)

-- `GeneralWalkthroughSearch`: the error of `fs.Stat` at the root is handed to the walk function,
-- and the root itself is the path ".". With a walk function that returns nil there is no error,
-- so the result is the counter.
unfoldable pub general_walkthrough_search :
    Bytes → List Bytes → Option GoError → Option GoError → Nodes → Found
general_walkthrough_search action_path allowed_exts (some e) read_error ns =
    let root = replace_byte b'\\' b'/' action_path in
    walk_fn root allowed_exts (codes ".") false true (record { counter = 0; sent = [] })
general_walkthrough_search action_path allowed_exts none read_error ns =
    let root = replace_byte b'\\' b'/' action_path in
    walk_nodes root allowed_exts [] ns (
      after_read root allowed_exts (codes ".") read_error
        (walk_fn root allowed_exts (codes ".") true false (record { counter = 0; sent = [] })))
