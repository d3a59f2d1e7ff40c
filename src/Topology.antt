-- ===== src/Topology.antt =====
-- `genTree` of
-- components/org.wso2.ppaas.manager.console/console/themes/privatePaaS/js/custom/applications_topology.js:
-- the rows of an application's runtime topology. The loops push rows, and write the page's globals:
-- `applicationId`, and `accessUrls` and `loadBalancerIps`, which no `var` declares.
pub mod Document
pub mod Drawn
pub mod Globals
pub mod Popover
pub mod Tests
use product_private_paas.Common.{
  Text, codes, Option, none, some, List, [], ◌∷◌, ◌++◌, Bool, if◌then◌else◌,
}
use product_private_paas.Forest.{Row, tree_of_rows}
use product_private_paas.Forest.Trees.{Rose}
use Document.{
  Port, Member, Cluster, GroupInstance, GroupInstances, group_instance, no_instances, add_instance,
  Instance, Topology,
}

pub record ClusterRow : Type 0 where
  pub alias : Text
  pub host_names : Text
  pub service_name : Text
  pub status : Text
  pub access_urls : List Text
  pub load_balancer_ips : List Text

-- The fields of a row behind its name and its parent; the constructor is its `type`.
pub data Detail : Type 0 where
  application : Text → Detail
  application_instance : Text → Detail
  cluster : ClusterRow → Detail
  group : Text → Text → Text → Detail
  member : Member → Detail

pub record Page : Type 0 where
  pub rawout : List (Row Detail)
  pub application_id : Text
  pub access_urls : List Text
  pub load_balancer_ips : List Text

abbrev pub row : Text → Option Text → Detail → Row Detail
row name parent detail = record { name = name; parent = parent; payload = detail }

abbrev push : Row Detail → Page → Page
push r s = record s { rawout = s.rawout ++ r ∷ [] }

-- `hostNames.toString()`
unfoldable pub join_commas : List Text → Text
join_commas [] = []
join_commas (t ∷ []) = t
join_commas (t ∷ u ∷ ts) = t ++ codes "," ++ join_commas (u ∷ ts)

-- `items[prop].accessUrls` or '': an absent list and '' are read alike later, as is [].
abbrev pub or_empty : Option (List Text) → List Text
or_empty none = []
or_empty (some urls) = urls

abbrev pub cluster_name : Cluster → Text
cluster_name c = c.cluster_id ++ c.instance_id

abbrev pub cluster_row : Cluster → ClusterRow
cluster_row c = record {
  alias = c.alias;
  host_names = join_commas c.host_names;
  service_name = c.service_name;
  status = c.status;
  access_urls = or_empty c.access_urls;
  load_balancer_ips = or_empty c.load_balancer_ips;
}

unfoldable pub cluster_members : List Member → Text → Page → Page
cluster_members [] parent s = s
cluster_members (m ∷ ms) parent s =
    cluster_members ms parent (push (row m.member_id (some parent) (member m)) s)

abbrev pub push_cluster : Cluster → Text → Page → Page
push_cluster c parent s = record {
  rawout = s.rawout ++ row (cluster_name c) (some parent) (cluster (cluster_row c)) ∷ [];
  application_id = s.application_id;
  access_urls = or_empty c.access_urls;
  load_balancer_ips = or_empty c.load_balancer_ips;
}

unfoldable pub cluster_instances : List Cluster → Text → Page → Page
unfolding cluster_members
cluster_instances [] parent s = s
cluster_instances (c ∷ cs) parent s =
    cluster_instances cs parent
      (cluster_members c.member (cluster_name c) (push_cluster c parent s))

unfoldable mutual
  unfolding cluster_instances

  pub group_instances : GroupInstances → Text → Page → Page
  group_instances no_instances parent s = s
  group_instances (add_instance g gs) parent s =
      group_instances gs parent (one_group_instance g parent s)

  pub one_group_instance : GroupInstance → Text → Page → Page
  one_group_instance (group_instance group_id instance_id status clusters groups) parent s =
      group_instances groups (group_id ++ instance_id) (
        cluster_instances clusters (group_id ++ instance_id) (
          push (row (group_id ++ instance_id) (some parent) (group group_id instance_id status)) s))

unfoldable pub application_instances : List Instance → Text → Page → Page
unfolding group_instances cluster_instances
application_instances [] parent s = s
application_instances (a ∷ rest) parent s =
    let pushed = push (row a.instance_id (some parent) (application_instance a.status)) s in
    let at_app = record pushed { application_id = a.application_id } in
    application_instances rest parent (
      group_instances a.group_instances a.instance_id
        (cluster_instances a.cluster_instances a.instance_id at_app))

-- The page before the call: `rawout` holds the root row.
abbrev pub start : Page → Topology → Page
start s t = record s { rawout = row t.id none (application t.status) ∷ [] }

unfoldable pub gen_rows : Page → Topology → Page
unfolding application_instances
gen_rows s t = application_instances t.application_instances t.id (start s t)

unfoldable pub gen_tree : Page → Topology → Option (Rose Detail)
unfolding gen_rows
gen_tree s t = tree_of_rows (gen_rows s t).rawout
