-- ===== src/Topology/Drawn.antt =====
-- The tree of a topology document, beside the rows of `genTree` in applications_topology.js.
use product_private_paas.Common.{
  Text, ◌≡◌, sym, ap, ◌∙◌, true, none, some, List, [], ◌∷◌, ◌++◌, append_assoc, append-nil,
}
use product_private_paas.Forest.{Row, tree_of_rows}
use product_private_paas.Forest.Trees.{Rose, Roses, node, nil, cons}
use product_private_paas.Forest.Layout.{flatten, flatten_all, join, flatten_all-join}
use product_private_paas.Forest.Names.{has_own_names}
use product_private_paas.Forest.Roundtrip.{tree_of_rows-flatten}
use product_private_paas.Topology.Document.{
  Member, Cluster, GroupInstance, GroupInstances, group_instance, no_instances, add_instance,
  Instance, Topology,
}
use product_private_paas.Topology.{
  Detail, application, application_instance, cluster, group, member, Page, cluster_name,
  cluster_row, cluster_members, push_cluster, cluster_instances, group_instances,
  one_group_instance, application_instances, start, gen_rows, gen_tree,
}

unfoldable pub member_trees : List Member → Roses Detail
member_trees [] = nil
member_trees (m ∷ ms) = cons (node m.member_id (member m) nil) (member_trees ms)

unfoldable pub cluster_trees : List Cluster → Roses Detail
unfolding member_trees
cluster_trees [] = nil
cluster_trees (c ∷ cs) =
    cons (node (cluster_name c) (cluster (cluster_row c)) (member_trees c.member))
      (cluster_trees cs)

unfoldable mutual
  unfolding join cluster_trees

  pub group_trees : GroupInstances → Roses Detail
  group_trees no_instances = nil
  group_trees (add_instance g gs) = cons (group_tree g) (group_trees gs)

  group_tree : GroupInstance → Rose Detail
  group_tree (group_instance g i status clusters groups) =
      node (g ++ i) (group g i status) (join (cluster_trees clusters) (group_trees groups))

unfoldable pub instance_trees : List Instance → Roses Detail
unfolding group_trees join cluster_trees
instance_trees [] = nil
instance_trees (a ∷ rest) =
    cons
      (node a.instance_id (application_instance a.status)
        (join (cluster_trees a.cluster_instances) (group_trees a.group_instances)))
      (instance_trees rest)

-- The nesting of the document: below an instance and below a group the clusters stand before the
-- groups, and below a cluster its members.
unfoldable pub topology_tree : Topology → Rose Detail
unfolding instance_trees
topology_tree t = node t.id (application t.status) (instance_trees t.application_instances)

rawout-members :
    (ms : List Member) (n : Text) (s : Page)
    → (cluster_members ms n s).rawout ≡ s.rawout ++ flatten_all (some n) (member_trees ms)
unfolding cluster_members member_trees flatten
rawout-members [] n s = sym (append-nil s.rawout)
rawout-members (m ∷ ms) n s = rawout-members ms n _ ∙ append_assoc s.rawout _ _

rawout-clusters :
    (cs : List Cluster) (n : Text) (s : Page)
    → (cluster_instances cs n s).rawout ≡ s.rawout ++ flatten_all (some n) (cluster_trees cs)
unfolding cluster_instances cluster_trees flatten
rawout-clusters [] n s = sym (append-nil s.rawout)
rawout-clusters (c ∷ cs) n s =
    rawout-clusters cs n _
    ∙ simp (rawout-members c.member (cluster_name c) (push_cluster c n s), append_assoc)

regroup :
    (xs : List (Row Detail)) (r : Row Detail) (ys zs both : List (Row Detail))
    → both ≡ ys ++ zs
    → ((xs ++ r ∷ []) ++ ys) ++ zs ≡ xs ++ r ∷ both
regroup xs r ys zs both e = rw e (simp append_assoc)

mutual
  unfolding group_instances group_trees flatten

  rawout-groups :
      (gs : GroupInstances) (n : Text) (s : Page)
      → (group_instances gs n s).rawout ≡ s.rawout ++ flatten_all (some n) (group_trees gs)
  rawout-groups no_instances n s = sym (append-nil s.rawout)
  rawout-groups (add_instance g gs) n s =
      rawout-groups gs n (one_group_instance g n s)
      ∙ ap (λ r. r ++ flatten_all (some n) (group_trees gs)) (rawout-group g n s)
      ∙ append_assoc s.rawout (flatten (some n) (group_tree g)) _

  rawout-group :
      (g : GroupInstance) (n : Text) (s : Page)
      → (one_group_instance g n s).rawout ≡ s.rawout ++ flatten (some n) (group_tree g)
  rawout-group (group_instance g i status clusters groups) n s =
      rawout-groups groups (g ++ i) _
      ∙ ap (λ r. r ++ flatten_all (some (g ++ i)) (group_trees groups))
          (rawout-clusters clusters (g ++ i) _)
      ∙ regroup s.rawout _ _ _ _
          (flatten_all-join (some (g ++ i)) (cluster_trees clusters) (group_trees groups))

rawout-instances :
    (is : List Instance) (n : Text) (s : Page)
    → (application_instances is n s).rawout ≡ s.rawout ++ flatten_all (some n) (instance_trees is)
unfolding application_instances instance_trees flatten
rawout-instances [] n s = sym (append-nil s.rawout)
rawout-instances (a ∷ rest) n s =
    rawout-instances rest n _
    ∙ simp (
      rawout-groups a.group_instances a.instance_id,
      rawout-clusters a.cluster_instances a.instance_id,
      flatten_all-join (some a.instance_id) (cluster_trees a.cluster_instances)
          (group_trees a.group_instances),
      append_assoc,
    )

-- The rows that `genTree` pushes are the preorder of the document, whatever the page's globals were.
pub gen_rows-flatten :
    (s : Page) (t : Topology) → (gen_rows s t).rawout ≡ flatten none (topology_tree t)
unfolding gen_rows topology_tree flatten
gen_rows-flatten s t = rawout-instances t.application_instances t.id (start s t)

-- For every topology document in which the names of the nodes that have something below them are
-- distinct and differ from every other name (a group's name is its group id and instance id run
-- together, a cluster's its cluster id and instance id), and in which nothing is called "null", the
-- tree that `genTree` returns has the document's nesting, whatever the page's globals were.
pub gen_tree_shows_document :
    (s : Page) (t : Topology)
    → has_own_names (topology_tree t) ≡ true
    → gen_tree s t ≡ some (topology_tree t)
unfolding gen_tree
gen_tree_shows_document s t own =
    ap tree_of_rows (gen_rows-flatten s t) ∙ tree_of_rows-flatten (topology_tree t) own
