-- ===== src/Topology/Tests.antt =====
-- An application with a cluster of its own and a group with another, each with one member.
use product_private_paas.Common.{
  Text, codes, text_eq, mem, distinct, disjoint, length, ◌≡◌, refl, true, false, none, some, [],
  ◌∷◌, ◌++◌,
}
use product_private_paas.Forest.Layout.{flatten, inner_names, leaf_names, if_inner, if_leaf, join}
use product_private_paas.Forest.Names.{has_own_names}
use product_private_paas.Topology.Document.{
  Member, Cluster, Topology, group_instance, no_instances, add_instance,
}
use product_private_paas.Topology.{Page, join_commas, gen_rows, gen_tree}
use product_private_paas.Topology.Drawn.{
  topology_tree, member_trees, cluster_trees, group_trees, instance_trees, gen_tree_shows_document,
}
use product_private_paas.Topology.Globals.{
  all_clusters, instance_clusters, group_clusters, last_ips, gen_rows-load_balancer_ips,
}
use product_private_paas.Topology.Popover.{is_blank, load_balancer_ips_html}
use product_private_paas.Topology.Popover.Addresses.{comma_list, popover_shows_last_cluster}

abbrev member_of : Text → Member
member_of id = record {
  member_id = id;
  default_private_ip = codes "10.0.0.1";
  default_public_ip = codes "192.0.2.1";
  ports = none;
  network_partition_id = codes "n";
  partition_id = codes "p";
  status = codes "Active";
}

abbrev cluster_of : Text → Text → Text → Cluster
cluster_of id ip member = record {
  cluster_id = id;
  instance_id = codes "-1";
  alias = id;
  host_names = codes "host" ∷ [];
  service_name = codes "php";
  status = codes "Active";
  access_urls = none;
  load_balancer_ips = some (ip ∷ []);
  member = member_of member ∷ [];
}

abbrev shop : Topology
shop = record {
  id = codes "shop";
  status = codes "Active";
  application_instances =
      record {
        instance_id = codes "shop-1";
        status = codes "Active";
        application_id = codes "shop";
        cluster_instances = cluster_of (codes "web") (codes "10.0.0.8") (codes "m1") ∷ [];
        group_instances =
            add_instance
              (group_instance (codes "db") (codes "-1") (codes "Active")
                (cluster_of (codes "sql") (codes "10.0.0.9") (codes "m2") ∷ []) no_instances)
              no_instances;
      }
      ∷ [];
}

abbrev fresh_page : Page
fresh_page = record { rawout = []; application_id = []; access_urls = []; load_balancer_ips = [] }

shop-own_names : has_own_names (topology_tree shop) ≡ true
unfolding topology_tree instance_trees group_trees cluster_trees member_trees join has_own_names
    inner_names leaf_names if_inner if_leaf flatten distinct disjoint mem text_eq
shop-own_names = refl

gen_tree_shows_document_example : gen_tree fresh_page shop ≡ some (topology_tree shop)
gen_tree_shows_document_example = gen_tree_shows_document fresh_page shop shop-own_names

gen_rows-load_balancer_ips_example :
    (gen_rows fresh_page shop).load_balancer_ips ≡ last_ips [] (all_clusters shop)
gen_rows-load_balancer_ips_example = gen_rows-load_balancer_ips fresh_page shop

web_ips : is_blank (codes "10.0.0.8" ∷ []) ≡ false
unfolding is_blank join_commas text_eq
web_ips = refl

one_ip : length (codes "10.0.0.8" ∷ []) ≡ length (last_ips [] (all_clusters shop))
unfolding all_clusters instance_clusters group_clusters last_ips
one_ip = refl

-- The popover of the cluster web lists the address of the cluster sql.
popover_shows_last_cluster_example :
    load_balancer_ips_html (codes "10.0.0.8" ∷ []) (gen_rows fresh_page shop).load_balancer_ips
    ≡ codes "<strong>Load Balancer IPs: </strong>"
      ++ comma_list (last_ips [] (all_clusters shop))
      ++ codes "<br/>"
popover_shows_last_cluster_example =
    popover_shows_last_cluster fresh_page shop (codes "10.0.0.8" ∷ []) web_ips one_ip
