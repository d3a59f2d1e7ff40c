-- ===== src/Whiteboard/Open.antt =====
-- The endpoints that a connection can be dropped on, and what drawing a group adds to them.
use product_private_paas.Common.{
  Text, ◌≡◌, refl, ap, ◌∙◌, none, some, List, [], ◌∷◌, ◌++◌, arith, if◌then◌else◌,
}
use product_private_paas.GroupJson.{Group, group}
use product_private_paas.Forest.Layout.{flatten, flatten_all}
use product_private_paas.Forest.Trees.{Rose, Roses, node, nil, cons}
use product_private_paas.GroupTree.{NodeType, groups, cartridges}
use product_private_paas.GroupTree.Preview.{document_tree, parts}
use product_private_paas.Whiteboard.{dash}
use product_private_paas.Whiteboard.Ends.{end_of, ends_at, ends_of, ends_of-append}
use product_private_paas.Whiteboard.Paths.{Shape, paths, paths_all}
use product_private_paas.Whiteboard.Plumbing.{End, group_options}

unfoldable pub open_ends : List End → List End
open_ends [] = []
open_ends (e ∷ es) = let rest = open_ends es in if e.options.is_target then e ∷ rest else rest

pub open_ends-append : (es fs : List End) → open_ends (es ++ fs) ≡ open_ends es ++ open_ends fs
unfolding open_ends
open_ends-append [] fs = refl
open_ends-append (e ∷ es) fs = ground (arith, open_ends-append es fs)

-- A node below another has no open end.
open_ends-below : (kind : NodeType) (x id : Text) → open_ends (ends_at kind (some x) id) ≡ []
unfolding open_ends
open_ends-below cartridges x id = refl
open_ends-below groups x id = refl

open_ends-nil : open_ends [] ≡ []
unfolding open_ends
open_ends-nil = refl

mutual
  unfolding flatten ends_of

  open_ends-tree :
      (x : Text) (t : Rose (Shape NodeType)) → open_ends (ends_of (flatten (some x) t)) ≡ []
  open_ends-tree x (node n a ts) =
      open_ends-append (ends_at a.kind (some x) n) (ends_of (flatten_all (some n) ts))
      ∙ ap (λ l. l ++ open_ends (ends_of (flatten_all (some n) ts))) (open_ends-below a.kind x n)
      ∙ open_ends-trees n ts

  open_ends-trees :
      (x : Text) (ts : Roses (Shape NodeType)) → open_ends (ends_of (flatten_all (some x) ts)) ≡ []
  open_ends-trees x nil = open_ends-nil
  open_ends-trees x (cons t ts) =
      ap open_ends (ends_of-append (flatten (some x) t) (flatten_all (some x) ts))
      ∙ open_ends-append (ends_of (flatten (some x) t)) (ends_of (flatten_all (some x) ts))
      ∙ ap (λ l. l ++ open_ends (ends_of (flatten_all (some x) ts))) (open_ends-tree x t)
      ∙ open_ends-trees x ts

abbrev group_name : Group → Text
group_name (group n ps) = n

open_ends-root :
    (id : Text) (ts : Roses (Shape NodeType))
    → open_ends (ends_at groups none id ++ ends_of (flatten_all (some id) ts))
      ≡ end_of group_options id ∷ []
unfolding open_ends
open_ends-root id ts = ap (λ l. end_of group_options id ∷ l) (open_ends-trees id ts)

-- Of all nodes of a group that is drawn, a connection can be dropped on its own node alone.
pub open_ends-group :
    (g : Group) (counter : Text)
    → open_ends (ends_of (flatten none (paths counter (document_tree g))))
      ≡ end_of group_options (dash counter (group_name g)) ∷ []
unfolding document_tree flatten paths ends_of
open_ends-group (group n ps) counter =
    open_ends-root (dash counter n) (paths_all (dash counter n) (parts ps))
