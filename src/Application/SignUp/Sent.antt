-- ===== src/Application/SignUp/Sent.antt =====
-- What the sign-up page sends, after any sequence of events.
use product_private_paas.Common.{
  Text, codes, text_eq_iff, text_eq_refl, mem, distinct, ◌≡◌, refl, sym, ap, ◌∙◌, true, false, none,
  List, [], ◌∷◌, ◌++◌, map, arith, drop, if◌then◌else◌,
}
use product_private_paas.Json.{Json, Items, no_items}
use product_private_paas.Export.{Connection}
use product_private_paas.Forest.{Row, names_of}
use product_private_paas.Whiteboard.Targets.{targets, targets_of_drawing}
use product_private_paas.Forest.Layout.{flatten}
use product_private_paas.Application.{Application, AppNode, AppBoard}
use product_private_paas.Application.Drawn.{
  Part, whole, nested, leaf, application_tree, shape_node, look_node, draw-AppDraws, AppDraws,
}
use product_private_paas.Application.Pages.{sign_up_page, draw, sign_up_look}
use product_private_paas.Application.SignUp.{
  SignUp, generated, push_some, repositories, sign_up_document, sign_up_payload,
}
use product_private_paas.Application.SignUp.Events.{SignUpEvents, Keeps, events_preserve}
use product_private_paas.Application.SignUp.Updates.{ids}
use product_private_paas.Whiteboard.Paths.{Shape, paths, links_of}
use product_private_paas.Whiteboard.Plumbing.{JsPlumb}

-- The values of the nodes that have been updated, in the order of the page.
unfoldable pub collect_generated : List AppNode → Items
collect_generated [] = no_items
collect_generated (n ∷ ns) = push_some n.data_generated (collect_generated ns)

repositories-cons :
    (n : AppNode) (ns : List AppNode) (cs : List Connection)
    → mem n.id (targets cs) ≡ false
    → repositories (n ∷ ns) cs ≡ repositories ns cs
unfolding repositories generated mem
repositories-cons n ns [] h = refl
repositories-cons n ns (c ∷ cs) h =
    grind
      (arith, text_eq_iff n.id c.target_id, text_eq_iff c.target_id n.id, repositories-cons n ns cs)

repositories-collect_generated :
    (ns : List AppNode) (cs : List Connection)
    → targets cs ≡ ids ns
    → distinct (ids ns) ≡ true
    → repositories ns cs ≡ collect_generated ns
unfolding repositories generated distinct collect_generated
repositories-collect_generated [] [] e h = refl
repositories-collect_generated [] (c ∷ cs) e h = cc e
repositories-collect_generated (n ∷ ns) [] e h = cc e
repositories-collect_generated (n ∷ ns) (c ∷ cs) e h =
    let same : c.target_id ≡ n.id = cc e in
    let tails : targets cs ≡ ids ns = cc e in
    let fresh : mem n.id (ids ns) ≡ false = ground (arith, h) in
    let apart : distinct (ids ns) ≡ true = ground (arith, h) in
    ap (λ k. push_some (generated k (n ∷ ns)) (repositories (n ∷ ns) cs)) same
    ∙ ap
        (λ b.
          push_some (if b then n.data_generated else generated n.id ns) (repositories (n ∷ ns) cs))
        (text_eq_refl n.id)
    ∙ ap (push_some n.data_generated) (
        repositories-cons n ns cs (ap (mem n.id) tails ∙ fresh)
        ∙ repositories-collect_generated ns cs tails apart)

id_of_shape : (id name : Text) (k : Part) → (shape_node sign_up_look id name k).id ≡ id
id_of_shape id name whole = refl
id_of_shape id name nested = refl
id_of_shape id name (leaf c) = refl

ids_of_rows :
    (rows : List (Row (Shape Part))) → ids (map (look_node sign_up_look) rows) ≡ names_of rows
ids_of_rows [] = refl
ids_of_rows (r ∷ rows) = cc (id_of_shape r.name r.payload.name r.payload.kind, ids_of_rows rows)

-- The ids of the nodes that an application is drawn as.
unfoldable pub application_rows : Application → List (Row (Shape Part))
application_rows app = flatten none (paths (codes "0") (application_tree app))

repositories_of_others :
    (ns : List AppNode) (cs : List Connection)
    → targets cs ≡ drop 1 (ids ns)
    → distinct (ids ns) ≡ true
    → repositories ns cs ≡ collect_generated (drop 1 ns)
unfolding repositories collect_generated distinct
repositories_of_others [] [] e h = refl
repositories_of_others [] (c ∷ cs) e h = cc e
repositories_of_others (n ∷ ns) cs e h =
    let fresh : mem n.id (ids ns) ≡ false = ground (arith, h) in
    let apart : distinct (ids ns) ≡ true = ground (arith, h) in
    repositories-cons n ns cs (ap (mem n.id) e ∙ fresh)
    ∙ repositories-collect_generated ns cs e apart

module _ {S : Type 0} (p : JsPlumb S) (opened : Json → Json) where
  -- From an empty page on which an application is drawn, all of whose nodes have distinct ids, and
  -- after any sequence of events, a sign-up sends the values of exactly the nodes that have been
  -- updated, the application's own node aside, in the order of the page.
  pub sent_in_order :
      (app : Application) (b : AppBoard S) (s q : SignUp S)
      → b.nodes ≡ []
      → p.get_connections b.plumb ≡ []
      → distinct (names_of (application_rows app)) ≡ true
      → s.board ≡ draw p sign_up_page app b
      → SignUpEvents p opened s q
      → sign_up_payload p opened q ≡ sign_up_document (collect_generated (drop 1 q.board.nodes))
  unfolding application_rows
  sent_in_order app b s q no_nodes no_links apart drawn events =
      let rows : List (Row (Shape Part)) = application_rows app in
      let f : AppDraws p sign_up_look rows b (draw p sign_up_page app b) =
        draw-AppDraws p sign_up_page app b in
      let g : Keeps p opened s q = events_preserve p opened s q events in
      let names : ids q.board.nodes ≡ names_of rows =
        g.ids_kept
        ∙ ap (λ (t : AppBoard S). ids t.nodes) drawn
        ∙ ap ids f.nodes_drawn
        ∙ ap (λ ns. ids (ns ++ map (look_node sign_up_look) rows)) no_nodes
        ∙ ids_of_rows rows in
      let links : p.get_connections q.board.plumb ≡ links_of rows =
        ap p.get_connections g.plumb_kept
        ∙ ap (λ (t : AppBoard S). p.get_connections t.plumb) drawn
        ∙ f.links_drawn
        ∙ ap (λ cs. cs ++ links_of rows) no_links in
      ap sign_up_document (
        repositories_of_others q.board.nodes (p.get_connections q.board.plumb)
          (ap targets links
            ∙ targets_of_drawing (paths (codes "0") (application_tree app))
            ∙ ap (drop 1) (sym names))
          (ap distinct names ∙ apart))
