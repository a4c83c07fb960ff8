-- ===== src/Server/Trees.antt =====
-- tools/bst-dashboard.py: the nodes that `_fetch_deptree` reads of the lines that `bst show` prints.
use xfce_linux.Base.{
  ◌≡◌, refl, ap, sym, ◌∙◌, subst, append_assoc, append-nil, Bool, true, false, ◌||◌, some, none,
  List, [], ◌∷◌, ◌++◌, Text, codes, map, text_eq, is_empty, has_char, before_first, after_first,
  strip, is_space, drop_while, drop_while_end, ◌==◌, All, arith,
}
use xfce_linux.Server.Deptree.{
  Nodes, put_node, DepReader, bare, read_dep_line, read_dep_lines, flushed,
}

-- The lines of a node: the name with the first dependency, then a line for each other.
abbrev pub dash_line : Text → Text
dash_line d = codes "- " ++ d

abbrev pub node_lines : Text → List Text → List Text
node_lines name [] = (name ++ codes "\t[]") ∷ []
node_lines name (d ∷ ds) = (name ++ 9 ∷ dash_line d) ∷ map dash_line ds

abbrev pub tree_lines : Nodes → List Text
tree_lines [] = []
tree_lines ((name, deps) ∷ nodes) = node_lines name deps ++ tree_lines nodes

-- A name: some characters, no tab, no space at its ends.
pub record IsName (s : Text) : Type 0 where
  pub no_tab : has_char 9 s ≡ false
  pub some_char : is_empty s ≡ false
  pub left : drop_while is_space s ≡ s
  pub right : drop_while_end is_space s ≡ s

strip_name : (s : Text) → IsName s → strip s ≡ s
strip_name s h = ap (drop_while_end is_space) h.left ∙ h.right

strip-dash_line : (s : Text) → IsName s → strip (dash_line s) ≡ dash_line s
strip-dash_line s h = rw (h.right, h.some_char) refl

bare-dash_line : (s : Text) → IsName s → bare (dash_line s) ≡ s
bare-dash_line s h = rw (h.left, h.right) refl

has_char-tab : (s x : Text) → has_char 9 (s ++ 9 ∷ x) ≡ true
has_char-tab [] x = refl
has_char-tab (c ∷ s) x = let k = has_char-tab s x in ground arith

before_first-tab : (s x : Text) → has_char 9 s ≡ false → before_first 9 (s ++ 9 ∷ x) ≡ s
before_first-tab [] x h = refl
before_first-tab (c ∷ s) x h =
    let e : (c == 9) ≡ false = ground arith in
    rw e (ap (λ t. c ∷ t) (before_first-tab s x (rw e at h)))

after_first-tab : (s x : Text) → has_char 9 s ≡ false → after_first 9 (s ++ 9 ∷ x) ≡ x
after_first-tab [] x h = refl
after_first-tab (c ∷ s) x h =
    let e : (c == 9) ≡ false = ground arith in rw e (after_first-tab s x (rw e at h))

read_dep_line-no_deps :
    (name : Text) (r : DepReader)
    → IsName name
    → read_dep_line (name ++ codes "\t[]") r
      ≡ record { name = some name; deps = []; nodes = flushed r }
unfolding read_dep_line
read_dep_line-no_deps name r h =
    rw
      (
        has_char-tab name (codes "[]"),
        before_first-tab name (codes "[]") h.no_tab,
        after_first-tab name (codes "[]") h.no_tab,
        strip_name name h,
      )
      refl

read_dep_line-first :
    (name d : Text) (r : DepReader)
    → IsName name
    → IsName d
    → read_dep_line (name ++ 9 ∷ dash_line d) r
      ≡ record { name = some name; deps = d ∷ []; nodes = flushed r }
unfolding read_dep_line
read_dep_line-first name d r h k =
    rw
      (
        has_char-tab name (dash_line d),
        before_first-tab name (dash_line d) h.no_tab,
        after_first-tab name (dash_line d) h.no_tab,
        strip_name name h,
      )
      (rw (strip-dash_line d k) (rw (bare-dash_line d k) (rw k.some_char refl)))

read_dep_line-dash :
    (name d : Text) (deps : List Text) (nodes : Nodes)
    → IsName d
    → read_dep_line (dash_line d) (record { name = some name; deps = deps; nodes = nodes })
      ≡ record { name = some name; deps = deps ++ d ∷ []; nodes = nodes }
unfolding read_dep_line
read_dep_line-dash name d deps nodes k =
    rw k.no_tab (rw (strip-dash_line d k) (rw (bare-dash_line d k) (rw k.some_char refl)))

read_dep_lines-dashes :
    (name : Text) (ds deps : List Text) (nodes : Nodes)
    → All IsName ds
    → read_dep_lines (map dash_line ds) (record { name = some name; deps = deps; nodes = nodes })
      ≡ record { name = some name; deps = deps ++ ds; nodes = nodes }
read_dep_lines-dashes name [] deps nodes h =
    ap (λ l. record { name = some name; deps = l; nodes = nodes }) (sym (append-nil deps))
read_dep_lines-dashes name (d ∷ ds) deps nodes (k, h) =
    ap (read_dep_lines (map dash_line ds)) (read_dep_line-dash name d deps nodes k)
    ∙ read_dep_lines-dashes name ds (deps ++ d ∷ []) nodes h
    ∙ ap (λ l. record { name = some name; deps = l; nodes = nodes }) (append_assoc deps (d ∷ []) ds)

read_dep_lines-node :
    (name : Text) (deps : List Text) (r : DepReader)
    → IsName name
    → All IsName deps
    → read_dep_lines (node_lines name deps) r
      ≡ record { name = some name; deps = deps; nodes = flushed r }
read_dep_lines-node name [] r h hs = read_dep_line-no_deps name r h
read_dep_lines-node name (d ∷ ds) r h (k, hs) =
    ap (read_dep_lines (map dash_line ds)) (read_dep_line-first name d r h k)
    ∙ read_dep_lines-dashes name ds (d ∷ []) (flushed r) hs

read_dep_lines-append :
    (xs ys : List Text) (r : DepReader)
    → read_dep_lines (xs ++ ys) r ≡ read_dep_lines ys (read_dep_lines xs r)
read_dep_lines-append [] ys r = refl
read_dep_lines-append (x ∷ xs) ys r = read_dep_lines-append xs ys (read_dep_line x r)

abbrev pub has_node : Text → Nodes → Bool
has_node name [] = false
has_node name ((n, deps) ∷ nodes) = text_eq n name || has_node name nodes

put_node-fresh :
    (name : Text) (deps : List Text) (nodes : Nodes)
    → has_node name nodes ≡ false
    → put_node name deps nodes ≡ nodes ++ (name, deps) ∷ []
put_node-fresh name deps [] h = refl
put_node-fresh name deps ((n, ds) ∷ nodes) h =
    let e : text_eq n name ≡ false = ground arith in
    rw e (ap (λ l. (n, ds) ∷ l) (put_node-fresh name deps nodes (rw e at h)))

-- The nodes have names for names and dependencies, and no name twice, nor one of those before.
abbrev pub AreNodes : Nodes → Nodes → Type 0
AreNodes old [] = Unit
AreNodes old ((name, deps) ∷ nodes) =
    (has_node name old ≡ false)
    × IsName name
    × All IsName deps
    × AreNodes (old ++ (name, deps) ∷ []) nodes

tree_lines-flushed :
    (nodes : Nodes) (r : DepReader)
    → AreNodes (flushed r) nodes
    → flushed (read_dep_lines (tree_lines nodes) r) ≡ flushed r ++ nodes
tree_lines-flushed [] r h = sym (append-nil (flushed r))
tree_lines-flushed ((name, deps) ∷ nodes) r (f, n, ds, h) =
    let s : DepReader = record { name = some name; deps = deps; nodes = flushed r } in
    let p = put_node-fresh name deps (flushed r) f in
    ap flushed (read_dep_lines-append (node_lines name deps) (tree_lines nodes) r)
    ∙ ap (λ x. flushed (read_dep_lines (tree_lines nodes) x)) (read_dep_lines-node name deps r n ds)
    ∙ tree_lines-flushed nodes s (subst (λ l. AreNodes l nodes) (sym p) h)
    ∙ ap (λ l. l ++ nodes) p
    ∙ append_assoc (flushed r) ((name, deps) ∷ []) nodes

-- Of the lines that are printed for a tree, with a tab after each name and a dash before each
-- dependency, exactly the nodes of the tree are read, in their order.
pub tree_lines-nodes :
    (nodes : Nodes)
    → AreNodes [] nodes
    → flushed (read_dep_lines (tree_lines nodes) (record { name = none; deps = []; nodes = [] }))
      ≡ nodes
tree_lines-nodes nodes h = tree_lines-flushed nodes _ h
