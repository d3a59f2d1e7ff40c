-- ===== src/Topology/Globals.antt =====
-- What `genTree` leaves in the page's globals.
use product_private_paas.Common.{Text, ◌≡◌, refl, sym, ap, ◌∙◌, List, [], ◌∷◌, ◌++◌}
use product_private_paas.Topology.Document.{
  Member, Cluster, GroupInstance, GroupInstances, group_instance, no_instances, add_instance,
  Instance, Topology,
}
use product_private_paas.Topology.{
  Page, cluster_name, or_empty, cluster_members, push_cluster, cluster_instances, group_instances,
  one_group_instance, application_instances, start, gen_rows,
}

-- The clusters of a document, in its order.
unfoldable mutual
  pub group_clusters : GroupInstances → List Cluster
  group_clusters no_instances = []
  group_clusters (add_instance g gs) = one_group_clusters g ++ group_clusters gs

  pub one_group_clusters : GroupInstance → List Cluster
  one_group_clusters (group_instance g i status clusters groups) = clusters ++ group_clusters groups

unfoldable pub instance_clusters : List Instance → List Cluster
unfolding group_clusters
instance_clusters [] = []
instance_clusters (a ∷ rest) =
    a.cluster_instances ++ group_clusters a.group_instances ++ instance_clusters rest

unfoldable pub all_clusters : Topology → List Cluster
unfolding instance_clusters
all_clusters t = instance_clusters t.application_instances

-- The load balancer addresses of the last cluster, or `ips` where there is no cluster.
unfoldable pub last_ips : List Text → List Cluster → List Text
last_ips ips [] = ips
last_ips ips (c ∷ cs) = last_ips (or_empty c.load_balancer_ips) cs

last_ips-append :
    (ips : List Text) (cs ds : List Cluster)
    → last_ips ips (cs ++ ds) ≡ last_ips (last_ips ips cs) ds
unfolding last_ips
last_ips-append ips [] ds = refl
last_ips-append ips (c ∷ cs) ds = last_ips-append (or_empty c.load_balancer_ips) cs ds

ips-members :
    (ms : List Member) (n : Text) (s : Page)
    → (cluster_members ms n s).load_balancer_ips ≡ s.load_balancer_ips
unfolding cluster_members
ips-members [] n s = refl
ips-members (m ∷ ms) n s = ips-members ms n _

ips-clusters :
    (cs : List Cluster) (n : Text) (s : Page)
    → (cluster_instances cs n s).load_balancer_ips ≡ last_ips s.load_balancer_ips cs
unfolding cluster_instances last_ips
ips-clusters [] n s = refl
ips-clusters (c ∷ cs) n s =
    ips-clusters cs n _
    ∙ ap (λ ips. last_ips ips cs) (ips-members c.member (cluster_name c) (push_cluster c n s))

ips_nil : (s : Page) → s.load_balancer_ips ≡ last_ips s.load_balancer_ips []
unfolding last_ips
ips_nil s = refl

mutual
  unfolding group_instances group_clusters

  ips-groups :
      (gs : GroupInstances) (n : Text) (s : Page)
      → (group_instances gs n s).load_balancer_ips
        ≡ last_ips s.load_balancer_ips (group_clusters gs)
  ips-groups no_instances n s = ips_nil s
  ips-groups (add_instance g gs) n s =
      ips-groups gs n (one_group_instance g n s)
      ∙ ap (λ ips. last_ips ips (group_clusters gs)) (ips-group g n s)
      ∙ sym (last_ips-append s.load_balancer_ips (one_group_clusters g) (group_clusters gs))

  ips-group :
      (g : GroupInstance) (n : Text) (s : Page)
      → (one_group_instance g n s).load_balancer_ips
        ≡ last_ips s.load_balancer_ips (one_group_clusters g)
  ips-group (group_instance g i status clusters groups) n s =
      ips-groups groups (g ++ i) _
      ∙ ap (λ ips. last_ips ips (group_clusters groups)) (ips-clusters clusters (g ++ i) _)
      ∙ sym (last_ips-append s.load_balancer_ips clusters (group_clusters groups))

ips-instances :
    (is : List Instance) (n : Text) (s : Page)
    → (application_instances is n s).load_balancer_ips
      ≡ last_ips s.load_balancer_ips (instance_clusters is)
unfolding application_instances instance_clusters last_ips
ips-instances [] n s = refl
ips-instances (a ∷ rest) n s =
    ips-instances rest n _
    ∙ simp (
      ips-groups a.group_instances a.instance_id,
      ips-clusters a.cluster_instances a.instance_id,
      last_ips-append,
    )

-- After `genTree` the global `loadBalancerIps` holds the addresses of the last cluster of the
-- document, and its old value where the document has no cluster.
pub gen_rows-load_balancer_ips :
    (s : Page) (t : Topology)
    → (gen_rows s t).load_balancer_ips ≡ last_ips s.load_balancer_ips (all_clusters t)
unfolding gen_rows all_clusters
gen_rows-load_balancer_ips s t = ips-instances t.application_instances t.id (start s t)
