-- ===== src/Topology/Popover.antt =====
-- `update` of applications_topology.js: the popover of a node, its colour, its picture and its
-- label. The popover of a cluster takes the number of its addresses from the node, and the addresses
-- from the global `loadBalancerIps`.
pub mod Addresses
use product_private_paas.Common.{
  ℕ, zero, suc, ◌+◌, Text, codes, text_eq, text_eq_iff, ◌≡◌, refl, sym, ap, ◌∙◌, Bool, true, false,
  ◌||◌, Option, none, some, List, [], ◌∷◌, ◌++◌, arith, length, get_or, eqb, if◌then◌else◌,
}
use product_private_paas.Forest.{Row}
use product_private_paas.Topology.Document.{Port, Member, Cluster, Topology}
use product_private_paas.Topology.{
  ClusterRow, Detail, application, application_instance, cluster, group, member, Page, join_commas,
  or_empty, gen_rows,
}
use product_private_paas.Topology.Globals.{last_ips, all_clusters, gen_rows-load_balancer_ips}

-- `urls == ''`: the list is compared by its text.
unfoldable pub is_blank : List Text → Bool
is_blank urls = text_eq (join_commas urls) []

access_links : List Text → Text
access_links [] = []
access_links (u ∷ us) =
    codes "<a href='"
    ++ u
    ++ codes "' target='_blank'>"
    ++ u
    ++ codes "</a><br/>"
    ++ access_links us

unfoldable pub access_urls_html : List Text → Text
unfolding access_links is_blank
access_urls_html urls =
    if is_blank urls then [] else codes "<strong>Access URLs: </strong>" ++ access_links urls

-- Round `i` of the loop over the node's addresses appends `loadBalancerIps[i] + ""`.
unfoldable pub ip_items : ℕ → List Text → List Text → Text
ip_items i [] global = []
ip_items i (ip ∷ ips) global =
    (if eqb i 0 then [] else codes ", ")
    ++ get_or global i (codes "undefined")
    ++ ip_items (suc i) ips global

unfoldable pub load_balancer_ips_html : List Text → List Text → Text
unfolding ip_items is_blank
load_balancer_ips_html ips global =
    if is_blank ips
    then []
    else codes "<strong>Load Balancer IPs: </strong>" ++ ip_items 0 ips global ++ codes "<br/>"

-- A colon before the last port only: the `</br>` stands between the ports.
port_items : List Port → Text
port_items [] = []
port_items (p ∷ []) = codes "Port: " ++ p.port ++ codes ", Protocol: " ++ p.protocol
port_items (p ∷ q ∷ ps) =
    codes "Port: "
    ++ p.port
    ++ codes ", Protocol: "
    ++ p.protocol
    ++ codes "</br>"
    ++ port_items (q ∷ ps)

unfoldable pub ports_html : Option (List Port) → Text
unfolding port_items
ports_html none = []
ports_html (some []) = []
ports_html (some (p ∷ ps)) =
    codes "<strong>Ports: </strong></br>" ++ port_items (p ∷ ps) ++ codes "</br>"

-- One line of a popover.
abbrev field : Text → Text → Text
field label value = codes "<strong>" ++ label ++ codes ": </strong>" ++ value ++ codes "<br/>"

abbrev last_field : Text → Text → Text
last_field label value = codes "<strong>" ++ label ++ codes ": </strong>" ++ value

abbrev usage_button : Text → Text → Text → Text
usage_button id name on_click =
    codes "<button class='btn btn-info show-usage' id="
    ++ id
    ++ codes " name='"
    ++ name
    ++ codes "' onClick='"
    ++ on_click
    ++ codes "'>Show Usage</button>"

-- The function of `data-content`, with the globals `dasStatsPublisherEnabled` and `loadBalancerIps`.
unfoldable pub data_content : Bool → List Text → Row Detail → Text
unfolding access_urls_html load_balancer_ips_html ports_html
data_content das global d = elim d.payload [
  | cluster c ↦
      field (codes "Cluster Id") d.name
      ++ field (codes "Cluster Alias") c.alias
      ++ access_urls_html c.access_urls
      ++ field (codes "HostNames") c.host_names
      ++ load_balancer_ips_html c.load_balancer_ips global
      ++ field (codes "Service Name") c.service_name
      ++ field (codes "Status") c.status
      ++ (if das
          then usage_button c.alias (codes "clusterUsage") (codes "showClusterUsage(this.id)")
          else [])
  | member m ↦
      field (codes "Member Id") d.name
      ++ field (codes "Default Private IP") m.default_private_ip
      ++ field (codes "Default Public IP") m.default_public_ip
      ++ ports_html m.ports
      ++ field (codes "Network Partition Id") m.network_partition_id
      ++ field (codes "Partition Id") m.partition_id
      ++ last_field (codes "Status") m.status
  | group g i status ↦ field (codes "Group Instance Id") i ++ last_field (codes "Status") status
  | application_instance status ↦
      field (codes "Instance Id") d.name ++ field (codes "Status") status
  | application status ↦
      field (codes "Alias") d.name
      ++ field (codes "Status") status
      ++ (if das
          then usage_button d.name (codes "appUsage") (codes "showApplicationUsage()")
          else [])
]

unfoldable pub status_of : Detail → Text
status_of (application status) = status
status_of (application_instance status) = status
status_of (cluster c) = c.status
status_of (group g i status) = status
status_of (member m) = m.status

-- The colour of the square of a node.
unfoldable pub fill : Text → Text
fill status =
    if text_eq status (codes "Active") || text_eq status (codes "Activated")
    then codes "#1abc9c"
    else if text_eq status (codes "Created")
    then codes "#e67e22"
    else if text_eq status (codes "Inactive")
    then codes "#7f8c8d"
    else if text_eq status (codes "Terminated")
    then codes "#c0392b"
    else if text_eq status (codes "Terminating")
    then codes "#c0392b"
    else codes "#CCC"

unfoldable pub image : Detail → Text
image (cluster c) = codes "../../themes/privatePaaS/images/topology/cluster.png"
image (group g i status) = codes "../../themes/privatePaaS/images/topology/group.png"
image (member m) = codes "../../themes/privatePaaS/images/topology/member.png"
image (application status) = codes "../../themes/privatePaaS/images/topology/application.png"
image (application_instance status) =
    codes "../../themes/privatePaaS/images/topology/application.png"

unfoldable pub label : Row Detail → Text
label d = elim d.payload [ member m ↦ [] | cluster c ↦ c.alias | group g i status ↦ g | _ ↦ d.name ]
