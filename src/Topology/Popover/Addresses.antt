-- ===== src/Topology/Popover/Addresses.antt =====
-- Whose addresses the popover of a cluster shows.
use product_private_paas.Common.{
  suc, Text, codes, ◌≡◌, refl, ap, false, List, [], ◌∷◌, ◌++◌, arith, length, get_or, append_assoc,
  length-append,
}
use product_private_paas.Topology.Document.{Topology}
use product_private_paas.Topology.{Page, gen_rows}
use product_private_paas.Topology.Globals.{last_ips, all_clusters, gen_rows-load_balancer_ips}
use product_private_paas.Topology.Popover.{is_blank, ip_items, load_balancer_ips_html}

rest_items : List Text → Text
rest_items [] = []
rest_items (ip ∷ ips) = codes ", " ++ ip ++ rest_items ips

-- The addresses with a comma and a space between them.
unfoldable pub comma_list : List Text → Text
unfolding rest_items
comma_list [] = []
comma_list (ip ∷ ips) = ip ++ rest_items ips

get_or-append_length :
    (pre : List Text) (x : Text) (xs : List Text) (d : Text)
    → get_or (pre ++ x ∷ xs) (length pre) d ≡ x
get_or-append_length [] x xs d = refl
get_or-append_length (p ∷ pre) x xs d = get_or-append_length pre x xs d

ip_items-rest :
    (p : Text) (pre ips global : List Text)
    → length ips ≡ length global
    → ip_items (length (p ∷ pre)) ips ((p ∷ pre) ++ global) ≡ rest_items global
unfolding ip_items rest_items
ip_items-rest p pre [] [] h = refl
ip_items-rest p pre [] (g ∷ gs) h = absurd (omega arith)
ip_items-rest p pre (ip ∷ ips) [] h = absurd (omega arith)
ip_items-rest p pre (ip ∷ ips) (g ∷ gs) h =
    let next = ip_items-rest p (pre ++ g ∷ []) ips gs (omega arith) in
    let count : length (pre ++ g ∷ []) ≡ suc (length pre) =
      omega (arith, length-append pre (g ∷ [])) in
    ground (
      arith,
      get_or-append_length (p ∷ pre) g gs (codes "undefined"),
      next,
      count,
      ap (λ n. ip_items (suc n) ips (p ∷ (pre ++ g ∷ gs))) count,
      ap (λ r. ip_items (suc (length (pre ++ g ∷ []))) ips (p ∷ r)) (append_assoc pre (g ∷ []) gs),
    )

ip_items-comma_list :
    (ips global : List Text)
    → length ips ≡ length global
    → ip_items 0 ips global ≡ comma_list global
unfolding ip_items comma_list
ip_items-comma_list [] [] h = refl
ip_items-comma_list [] (g ∷ gs) h = absurd (omega arith)
ip_items-comma_list (ip ∷ ips) [] h = absurd (omega arith)
ip_items-comma_list (ip ∷ ips) (g ∷ gs) h =
    ap (λ r. g ++ r) (ip_items-rest g [] ips gs (omega arith))

-- After `genTree`, the popover of any cluster that has addresses, as many as the last cluster of the
-- document, lists the addresses of the last cluster in place of its own.
pub popover_shows_last_cluster :
    (s : Page) (t : Topology) (ips : List Text)
    → is_blank ips ≡ false
    → length ips ≡ length (last_ips s.load_balancer_ips (all_clusters t))
    → load_balancer_ips_html ips (gen_rows s t).load_balancer_ips
      ≡ codes "<strong>Load Balancer IPs: </strong>"
        ++ comma_list (last_ips s.load_balancer_ips (all_clusters t))
        ++ codes "<br/>"
unfolding load_balancer_ips_html
popover_shows_last_cluster s t ips b h =
    rw (b, gen_rows-load_balancer_ips s t)
      (ap (λ r. codes "<strong>Load Balancer IPs: </strong>" ++ r ++ codes "<br/>")
        (ip_items-comma_list ips (last_ips s.load_balancer_ips (all_clusters t)) h))
