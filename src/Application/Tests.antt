-- ===== src/Application/Tests.antt =====
-- Tests of the pages that show an application, with jsPlumb's state cut down to its connections.
use product_private_paas.Common.{
  codes, text_eq, mem, distinct, ◌≡◌, refl, true, false, none, some, List, [], ◌∷◌, ◌||◌, drop,
  get_elem?,
}
use product_private_paas.Export.{ok, Connection}
use product_private_paas.Forest.{names_of}
use product_private_paas.Forest.Layout.{flatten}
use product_private_paas.Application.{
  app_group, no_app_groups, add_app_group, Application, AppNode, AppBoard, gen_app_cartridges,
  gen_app_groups, add_application,
}
use product_private_paas.Application.Deploy.{
  Deploy, adjacent, click_deploy_node, click_deploy_node-disables,
}
use product_private_paas.Application.Drawn.{AppDraws, application_tree, draw-AppDraws}
use product_private_paas.Application.Pages.{view_page, sign_up_page, draw, draw_sign_up, look_of}
use product_private_paas.Application.SignUp.{
  SignUp, store_at, click_node, tab_data, update, update_with, Feedback, signup_block_default,
  generated, sign_up_payload, sign_up_document,
}
use product_private_paas.Application.SignUp.Events.{rest, next, clicks, updates}
use product_private_paas.Application.SignUp.Sent.{
  collect_generated, application_rows, sent_in_order,
}
use product_private_paas.Application.SignUp.Updates.{
  ids, shown, click_twice, update_repeats, opened_for,
}
use product_private_paas.Whiteboard.Paths.{paths}
use product_private_paas.Whiteboard.Tests.{wires}

abbrev shop : Application
shop = record {
  alias = codes "shop";
  cartridges = record { type = codes "php"; alias = codes "p1" } ∷ [];
  groups =
      add_app_group
        (app_group (codes "db") (record { type = codes "mysql"; alias = codes "m1" } ∷ [])
          no_app_groups)
        no_app_groups;
}

abbrev empty_board : AppBoard (List Connection)
empty_board = record { nodes = []; plumb = [] }

draw-AppDraws_example :
    AppDraws wires
      (look_of view_page)
      (flatten none (paths (codes "0") (application_tree shop)))
      empty_board
      (draw wires view_page shop empty_board)
draw-AppDraws_example = draw-AppDraws wires view_page shop empty_board

test_ids :
    ids (draw wires sign_up_page shop empty_board).nodes
    ≡ (codes "0-shop" ∷ codes "0-shop-php" ∷ codes "0-shop-db" ∷ codes "0-shop-db-mysql" ∷ [])
unfolding draw draw_sign_up add_application gen_app_cartridges gen_app_groups
test_ids = refl

test_links : (draw wires sign_up_page shop empty_board).plumb ≡ (
    record { source_id = codes "0-shop"; target_id = codes "0-shop-php" }
    ∷ record { source_id = codes "0-shop"; target_id = codes "0-shop-db" }
    ∷ record { source_id = codes "0-shop-db"; target_id = codes "0-shop-db-mysql" }
    ∷ [])
unfolding draw draw_sign_up add_application gen_app_cartridges gen_app_groups
test_links = refl

abbrev feedback : Feedback
feedback = record { notes = []; button = []; leaves_later = false; left = false }

abbrev sign_up_start : SignUp (List Connection)
sign_up_start = record {
  board = draw wires sign_up_page shop empty_board;
  block_id = none;
  editor = none;
  default = signup_block_default;
  details_shown = false;
  sent = [];
  feedback = feedback;
}

abbrev php_node : AppNode
php_node =
    (look_of sign_up_page).cartridge_node (codes "0-shop-php")
      (record { type = codes "php"; alias = codes "p1" })

abbrev root_node : AppNode
root_node = (look_of sign_up_page).root_node (codes "0-shop") (codes "shop")

abbrev db_node : AppNode
db_node = (look_of sign_up_page).group_node (codes "0-shop-db") (codes "db")

test_has_php : mem (codes "0-shop-php") (ids sign_up_start.board.nodes) ≡ true
unfolding draw draw_sign_up add_application gen_app_cartridges gen_app_groups mem text_eq
test_has_php = refl

test_has_db : mem (codes "0-shop-db") (ids sign_up_start.board.nodes) ≡ true
unfolding draw draw_sign_up add_application gen_app_cartridges gen_app_groups mem text_eq
test_has_db = refl

test_php-db : text_eq (codes "0-shop-php") (codes "0-shop-db") ≡ false
unfolding text_eq
test_php-db = refl

update_repeats_example :
    (q : SignUp (List Connection)) × (click_twice wires (λ v. v) php_node db_node sign_up_start
      ≡ ok q)
    × (generated (codes "0-shop-php") q.board.nodes
        ≡ some (shown wires (λ v. v) php_node sign_up_start))
    × (generated (codes "0-shop-db") q.board.nodes
        ≡ some (shown wires (λ v. v) php_node sign_up_start))
update_repeats_example =
    update_repeats wires (λ v. v) php_node db_node sign_up_start refl refl test_php-db test_has_php
      test_has_db

abbrev php_opened : SignUp (List Connection)
php_opened = click_node wires (λ v. v) php_node sign_up_start

abbrev php_updated : SignUp (List Connection)
php_updated = record (opened_for wires (λ v. v) php_node sign_up_start) {
  board = record sign_up_start.board {
    nodes =
        store_at (codes "0-shop-php") (shown wires (λ v. v) php_node sign_up_start)
          sign_up_start.board.nodes;
  };
}

test_distinct : distinct (names_of (application_rows shop)) ≡ true
unfolding application_rows application_tree flatten paths distinct mem text_eq
test_distinct = refl

test_php_node : get_elem? sign_up_start.board.nodes 1 ≡ some php_node
unfolding draw draw_sign_up add_application gen_app_cartridges gen_app_groups
test_php_node = refl

test_update : update wires (λ v. v) php_opened ≡ ok php_updated
unfolding update update_with click_node tab_data
test_update = refl

sent_in_order_example :
    sign_up_payload wires (λ v. v) php_updated
    ≡ sign_up_document (collect_generated (drop 1 php_updated.board.nodes))
sent_in_order_example =
    sent_in_order wires (λ v. v) shop empty_board sign_up_start php_updated refl refl test_distinct
      refl
      (next sign_up_start php_opened php_updated
        (next sign_up_start sign_up_start php_opened (rest sign_up_start)
          (clicks 1 php_node sign_up_start test_php_node))
        (updates php_opened php_updated test_update))

abbrev deploy_start : Deploy (List Connection)
deploy_start = record {
  board = draw wires view_page shop empty_board;
  disabled = [];
  tab = [];
  requests = [];
  feedback = feedback;
}

test_not_root : text_eq (codes "0-shop-db") root_node.id ≡ false
unfolding text_eq
test_not_root = refl

click_deploy_node-disables_example :
    mem (codes "0-shop-db") (click_deploy_node wires root_node deploy_start).disabled ≡ (
      mem (codes "0-shop-db") deploy_start.disabled
      || adjacent root_node.id (codes "0-shop-db") deploy_start.board.plumb)
click_deploy_node-disables_example =
    click_deploy_node-disables wires root_node deploy_start (codes "0-shop-db") test_not_root
