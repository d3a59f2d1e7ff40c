-- ===== src/Whiteboard/Paths.antt =====
-- The ids that the nodes of a drawn tree get, and the rows of such a tree.
use product_private_paas.Common.{
  Text, ◌≡◌, refl, sym, ap, ◌∙◌, none, some, List, [], ◌∷◌, ◌++◌, append_assoc,
}
use product_private_paas.Forest.{Row}
use product_private_paas.Forest.Layout.{flatten_all, join, flatten_all-join}
use product_private_paas.Forest.Trees.{Rose, Roses, node, nil, cons}
use product_private_paas.GroupTree.{NodeType, groups, cartridges}
use product_private_paas.Export.{Connection, DataType}
use product_private_paas.Whiteboard.{Node, node_of, dash}

pub record Shape (A : Type 0) : Type 0 where
  pub kind : A
  pub name : Text

-- A tree with its nodes named by the names on the way to them.
unfoldable mutual
  pub paths : {A : Type 0} → Text → Rose A → Rose (Shape A)
  paths prefix (node n a ts) =
      node (dash prefix n) (record { kind = a; name = n }) (paths_all (dash prefix n) ts)

  pub paths_all : {A : Type 0} → Text → Roses A → Roses (Shape A)
  paths_all prefix nil = nil
  paths_all prefix (cons t ts) = cons (paths prefix t) (paths_all prefix ts)

abbrev data_type_of : NodeType → DataType
data_type_of groups = DataType.group
data_type_of cartridges = DataType.cartridge

abbrev pub row_node : Row (Shape NodeType) → Node
row_node r = node_of (data_type_of r.payload.kind) r.name r.payload.name

abbrev row_links : {A : Type 0} → Row (Shape A) → List Connection
row_links r = elim r.parent [
  | none ↦ []
  | some parent ↦ record { source_id = parent; target_id = r.name } ∷ []
]

-- The connections of the rows to their parents.
unfoldable pub links_of : {A : Type 0} → List (Row (Shape A)) → List Connection
links_of [] = []
links_of (r ∷ rows) = row_links r ++ links_of rows

pub links_of-append :
    {A : Type 0} → (xs ys : List (Row (Shape A))) → links_of (xs ++ ys) ≡ links_of xs ++ links_of ys
unfolding links_of
links_of-append [] ys = refl
links_of-append (r ∷ xs) ys =
    ap (λ c. row_links r ++ c) (links_of-append xs ys)
    ∙ sym (append_assoc (row_links r) (links_of xs) (links_of ys))

pub paths_all-join :
    {A : Type 0} (prefix : Text) (ts us : Roses A)
    → paths_all prefix (join ts us) ≡ join (paths_all prefix ts) (paths_all prefix us)
unfolding paths join
paths_all-join prefix nil us = refl
paths_all-join prefix (cons t ts) us = ap (cons (paths prefix t)) (paths_all-join prefix ts us)

-- The rows of two forests that hang side by side below a node.
pub rows-join :
    {A : Type 0} (prefix : Text) (ts us : Roses A)
    → flatten_all (some prefix) (paths_all prefix (join ts us))
      ≡ flatten_all (some prefix) (paths_all prefix ts)
        ++ flatten_all (some prefix) (paths_all prefix us)
rows-join prefix ts us =
    ap (flatten_all (some prefix)) (paths_all-join prefix ts us)
    ∙ flatten_all-join (some prefix) (paths_all prefix ts) (paths_all prefix us)

pub dash_assoc : (a b c : Text) → dash a (dash b c) ≡ dash (dash a b) c
dash_assoc a b c = simp append_assoc
