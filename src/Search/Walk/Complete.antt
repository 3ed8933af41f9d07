-- ===== src/Search/Walk/Complete.antt =====
-- Theorems on `GeneralWalkthroughSearch` (gocode/fileutils/filesearcher.go).
use mathlib.Core.List.{map-append}
use cramc.Prelude.{
  ◌+◌, ◌≡◌, refl, ◌∙◌, true, false, Option, none, some, List, [], ◌∷◌, ◌++◌, map, append-nil,
  append_assoc, arith, if◌then◌else◌, length, length-append, length-map, Bytes, codes,
}
use cramc.Prelude.Outcome.{GoError}
use cramc.Paths.{replace_byte}
use cramc.Search.{is_target}
use cramc.Search.Walk.{
  Node, file, dir, Nodes, nil, cons, Found, join_name, walk_fn, walk_node, walk_nodes, after_read,
  general_walkthrough_search,
}

-- The paths of the files of a tree, in the walk's order.
unfoldable mutual
  pub node_files : Bytes → Node → List Bytes
  node_files at (file name) = join_name at name ∷ []
  node_files at (dir name e ns) = files (join_name at name) ns

  pub files : Bytes → Nodes → List Bytes
  files at nil = []
  files at (cons n ns) = node_files at n ++ files at ns

unfoldable pub targets : List Bytes → List Bytes → List Bytes
targets allowed_exts [] = []
targets allowed_exts (p ∷ ps) =
    if is_target allowed_exts p then p ∷ targets allowed_exts ps else targets allowed_exts ps

targets-append :
    (exts ps qs : List Bytes) → targets exts (ps ++ qs) ≡ targets exts ps ++ targets exts qs
unfolding targets
targets-append exts [] qs = refl
targets-append exts (p ∷ ps) qs = ground (arith, targets-append exts ps qs)

abbrev pub under : Bytes → List Bytes → List Bytes
under root = map (λ p. root ++ b'/' ∷ p)

-- What a walk adds to what was found before it.
abbrev found : Bytes → List Bytes → Found → List Bytes → Found
found root exts f ps = record {
  counter = f.counter + length (targets exts ps);
  sent = f.sent ++ under root (targets exts ps);
}

found-append :
    (root : Bytes) (exts : List Bytes) (f : Found) (ps qs : List Bytes)
    → found root exts (found root exts f ps) qs ≡ found root exts f (ps ++ qs)
found-append root exts f ps qs = rw (targets-append exts ps qs) (
    ground (
      arith,
      length-append (targets exts ps) (targets exts qs),
      map-append (λ (p : Bytes). root ++ b'/' ∷ p) (targets exts ps) (targets exts qs),
      append_assoc f.sent (under root (targets exts ps)) (under root (targets exts qs)),
    ))

found-nil : (root : Bytes) (exts : List Bytes) (f : Found) → f ≡ found root exts f []
unfolding targets
found-nil root exts f = ground (arith, append-nil f.sent)

module _ (root : Bytes) (exts : List Bytes) where
  walk_fn-found :
      (p : Bytes) (f : Found) → walk_fn root exts p false false f ≡ found root exts f (p ∷ [])
  unfolding walk_fn targets
  walk_fn-found p f = ground (arith, append-nil f.sent)

  -- A directory adds nothing, whether or not it can be read.
  entering :
      (p : Bytes) (e : Option GoError) (f : Found)
      → after_read root exts p e (walk_fn root exts p true false f) ≡ f
  unfolding walk_fn
  entering p none f = refl
  entering p (some e) f = refl

  mutual
    unfolding walk_node walk_nodes node_files files

    walk_node-found :
        (n : Node) (at : Bytes) (f : Found)
        → walk_node root exts at n f ≡ found root exts f (node_files at n)
    walk_node-found (file name) at f = walk_fn-found (join_name at name) f
    walk_node-found (dir name e ns) at f =
        rw (entering (join_name at name) e f) (walk_nodes-found ns (join_name at name) f)

    walk_nodes-found :
        (ns : Nodes) (at : Bytes) (f : Found)
        → walk_nodes root exts at ns f ≡ found root exts f (files at ns)
    walk_nodes-found nil at f = found-nil root exts f
    walk_nodes-found (cons n ns) at f = rw (walk_node-found n at f) (
        walk_nodes-found ns at (found root exts f (node_files at n))
        ∙ found-append root exts f (node_files at n) (files at ns))

-- `GeneralWalkthroughSearch` on a tree whose root can be opened: whatever directories cannot be
-- read, it sends exactly the files whose path passes the test, each once and in the walk's order,
-- with the root (its backslashes turned to slashes) in front, and returns how many it sent.
pub general_walkthrough_search-targets :
    (action_path : Bytes) (exts : List Bytes) (read_error : Option GoError) (ns : Nodes)
    → let found = general_walkthrough_search action_path exts none read_error ns in
      (found.sent ≡ under (replace_byte b'\\' b'/' action_path) (targets exts (files [] ns)))
      × (found.counter ≡ length found.sent)
unfolding general_walkthrough_search
general_walkthrough_search-targets action_path exts read_error ns =
    let root = replace_byte b'\\' b'/' action_path in
    rw (entering root exts (codes ".") read_error (record { counter = 0; sent = [] })) (
      rw (walk_nodes-found root exts ns [] (record { counter = 0; sent = [] })) (
        refl,
        omega (
          arith,
          length-map {0, 0} (targets exts (files [] ns)) (λ (p : Bytes). root ++ b'/' ∷ p),
        ),
      ))
