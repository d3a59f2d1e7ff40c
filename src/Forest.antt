-- ===== src/Forest.antt =====
-- The tree that the console hands to d3: `generateGroupPreview` of
-- components/org.wso2.ppaas.manager.console/console/themes/privatePaaS/js/custom/applications-editor.js
-- and the second half of `genTree` of applications_topology.js beside it run the same code. It
-- takes rows with a name and the name of a parent, and links each row into the `children` of the
-- row that has the parent's name. Rows are objects, so a row is known by its place in the array.
pub mod Trees
pub mod Attach
pub mod Layout
pub mod Segments
pub mod Laid
pub mod Linked
pub mod Names
pub mod Roundtrip
pub mod Tests
use product_private_paas.Common.{
  ℕ, zero, suc, ◌+◌, Text, codes, Option, none, some, List, [], ◌∷◌, ◌++◌, map, length, get_elem?,
  get_or, replicate,
}
use product_private_paas.Objects.{Object, get_key}
use product_private_paas.Objects.Index.{index_from}
use Trees.{Rose, Roses, node, nil, cons}

pub record Row {ℓ} (A : Type ℓ) : Type ℓ where
  pub name : Text
  pub parent : Option Text
  pub payload : A

-- The `children` array of each row, and `treeData`.
pub record Links : Type 0 where
  pub children : List (List ℕ)
  pub roots : List ℕ

-- `dataMap[node.parent]` reads the key `String(node.parent)`, and `String(null)` is "null".
abbrev pub parent_key : Option Text → Text
parent_key none = codes "null"
parent_key (some p) = p

unfoldable pub push_at : ℕ → ℕ → List (List ℕ) → List (List ℕ)
push_at j i [] = []
push_at zero i (c ∷ cs) = (c ++ i ∷ []) ∷ cs
push_at (suc j) i (c ∷ cs) = c ∷ push_at j i cs

unfoldable pub place : Option ℕ → ℕ → Links → Links
unfolding push_at
place none i l = record l { roots = l.roots ++ i ∷ [] }
place (some j) i l = record l { children = push_at j i l.children }

module _ {ℓ} {A : Type ℓ} where
  abbrev pub names_of : List (Row A) → List Text
  names_of rows = map (λ r. r.name) rows

  unfoldable pub data_map : List (Row A) → Object ℕ
  unfolding index_from
  data_map rows = index_from 0 (names_of rows) []

  unfoldable pub attach : Object ℕ → ℕ → List (Row A) → Links → Links
  unfolding place get_key
  attach m i [] l = l
  attach m i (r ∷ rows) l = attach m (suc i) rows (place (get_key (parent_key r.parent) m) i l)

  unfoldable pub link_rows : List (Row A) → Links
  unfolding attach data_map
  link_rows rows =
      attach (data_map rows) 0 rows (record { children = replicate (length rows) []; roots = [] })

  abbrev collect : (ℕ → Option (Rose A)) → List ℕ → Option (Roses A)
  collect f [] = some nil
  collect f (i ∷ is) = elim (f i) [
    | none ↦ none
    | some t ↦ elim (collect f is) [ none ↦ none | some ts ↦ some (cons t ts) ]
  ]

  abbrev wrap : Row A → Option (Roses A) → Option (Rose A)
  wrap r none = none
  wrap r (some ts) = some (node r.name r.payload ts)

  -- The tree that d3 walks from a row along `children`; `none` is a walk that does not end within
  -- the fuel, as on a cycle.
  unfoldable pub walk : List (Row A) → Links → ℕ → ℕ → Option (Rose A)
  walk rows l zero i = none
  walk rows l (suc fuel) i =
      let below = collect (λ j. walk rows l fuel j) (get_or l.children i []) in
      elim (get_elem? rows i) [ none ↦ none | some r ↦ wrap r below ]

  -- The tree below `treeData[0]`.
  unfoldable pub tree_of_rows : List (Row A) → Option (Rose A)
  unfolding link_rows walk
  tree_of_rows rows =
      let l = link_rows rows in elim l.roots [ [] ↦ none | i ∷ _ ↦ walk rows l (length rows) i ]
