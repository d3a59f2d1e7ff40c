-- ===== src/Forms/Tests.antt =====
-- Tests of the forms, with jsPlumb's state cut down to its connections and numbers in unary.
use product_private_paas.Common.{
  ℕ, zero, suc, Text, codes, text_eq, mem, distinct, ◌≡◌, refl, ap, true, false, none, some, List,
  [], ◌∷◌, arith,
}
use product_private_paas.GroupJson.{Group, group, cartridges_prop, no_props}
use product_private_paas.Json.{Fields, null, obj, no_items, item, no_fields, get_field}
use product_private_paas.Export.{ok, throw, syntax_error, type_error, Connection, DataType}
use product_private_paas.Export.Assemble.{finish, group_document}
use product_private_paas.Export.Cleanup.{traverse}
use product_private_paas.Forms.{
  Workspace, Schema, cartridge_block_default, group_block_default, attributes_in, open_form,
  component_info_update, update_form, drop_cartridge, drop_group, saved_application, saved_group,
  fill_at,
}
use product_private_paas.Forms.Clicks.{node_ids, base_to, update_loses_cartridge}
use product_private_paas.Forms.Distinct.{ids_stay_distinct}
use product_private_paas.Forms.Events.{IsNumbering, rest, next, drops_cartridge}
use product_private_paas.Forms.Unlinked.{ids_below, unlinked_group_throws}
use product_private_paas.Forms.Saving.{all_filled, save_throws}
use product_private_paas.Whiteboard.{
  Board, Node, node_of, add_jsplumb_group, gen_props, gen_jsplumb_cartridge, dash,
}
use product_private_paas.Whiteboard.Paths.{paths}
use product_private_paas.Whiteboard.Plumbing.{bottom_connector_options}
use product_private_paas.GroupTree.Preview.{parts, leaves}
use product_private_paas.Forest.Layout.{flatten, join}
use product_private_paas.Whiteboard.Keys.{before_dash, after_dash}
use product_private_paas.Whiteboard.Removal.{application_editor, group_editor, base_id}
use product_private_paas.Whiteboard.Tests.{wires}

abbrev pub unary : ℕ → Text
unary zero = []
unary (suc n) = 49 ∷ unary n

unary_injective : (j k : ℕ) → text_eq (unary j) (unary k) ≡ true → j ≡ k
unfolding text_eq
unary_injective zero zero h = refl
unary_injective zero (suc k) h = cc h
unary_injective (suc j) zero h = cc h
unary_injective (suc j) (suc k) h = ap suc (unary_injective j k (ground (arith, h)))

unary_no_dash : (k : ℕ) → after_dash (unary k) ≡ none
unfolding after_dash
unary_no_dash zero = refl
unary_no_dash (suc k) = ground (arith, unary_no_dash k)

pub unary-IsNumbering : IsNumbering unary
unary-IsNumbering = record { injective = unary_injective; no_dash = unary_no_dash }

pub base-unary : (k : ℕ) → text_eq (before_dash (base_id application_editor)) (unary k) ≡ false
unfolding text_eq before_dash
base-unary zero = refl
base-unary (suc k) = refl

abbrev pub base_node : Node
base_node = node_of DataType.group (codes "applicationId") []

abbrev pub first_page : Workspace (List Connection)
first_page = record {
  board = record {
    nodes = base_node ∷ [];
    plumb = [];
    ends = record { element = codes "applicationId"; options = bottom_connector_options } ∷ [];
    notes = [];
    component_data = [];
    tab = [];
  };
  block_id = none;
  form = none;
  cartridge_default = cartridge_block_default;
  group_default = group_block_default;
  counter = 0;
  update_enabled = false;
  save_enabled = false;
}

abbrev pub as_given : Schema → Fields → Fields
as_given schema v = v

abbrev AnyChange : Board (List Connection) → List Connection → Type 0
AnyChange b plumb = Unit

abbrev pub with_php : Workspace (List Connection)
with_php = drop_cartridge wires as_given unary (codes "php") first_page

abbrev with_two : Workspace (List Connection)
with_two = drop_cartridge wires as_given unary (codes "php") with_php

ids_stay_distinct_example : distinct (node_ids with_two.board.nodes) ≡ true
ids_stay_distinct_example =
    ids_stay_distinct wires as_given unary application_editor AnyChange unary-IsNumbering first_page
      with_two base-unary refl
      (next first_page with_php with_two
        (next first_page first_page with_php (rest first_page)
          (drops_cartridge (codes "php") first_page))
        (drops_cartridge (codes "php") with_php))

abbrev php : Node
php = node_of DataType.cartridge (codes "1-php") (codes "php")

abbrev link : Connection
link = base_to (codes "1-php")

abbrev group_page : Workspace (List Connection)
group_page = record first_page {
  board = record first_page.board {
    nodes = node_of DataType.group (codes "group-base") [] ∷ php ∷ [];
    plumb = link ∷ [];
  };
  form = some group_block_default;
}

test_has_php : mem (codes "1-php") (node_ids group_page.board.nodes) ≡ true
unfolding mem text_eq
test_has_php = refl

test_no_cname : get_field (codes "cname") group_block_default ≡ none
unfolding get_field text_eq
test_no_cname = refl

test_php_first :
    (attributes_in group_page.board.nodes (codes "1-php")).data_type ≡ DataType.cartridge
unfolding attributes_in text_eq
test_php_first = refl

test_php_apart : text_eq (base_id group_editor) (codes "1-php") ≡ false
unfolding text_eq
test_php_apart = refl

update_loses_cartridge_example :
    (q : Workspace (List Connection)) × (component_info_update wires as_given group_editor
        (open_form wires as_given group_editor php group_page)
      ≡ ok q)
    × (saved_group wires as_given q
        ≡ finish (
            traverse (
              obj (
                group_document
                  (attributes_in group_page.board.nodes (base_id group_editor)).data_generated
                  no_items
                  (item null no_items)))))
update_loses_cartridge_example =
    update_loses_cartridge wires as_given php group_block_default group_page refl test_has_php
      test_php_first test_php_apart refl refl test_no_cname

-- One of two linked cartridges has been updated.
abbrev half_filled : Workspace (List Connection)
half_filled = record first_page {
  board = record first_page.board {
    nodes = base_node ∷ php ∷ node_of DataType.cartridge (codes "2-php") (codes "php") ∷ [];
    plumb =
        record { source_id = codes "applicationId"; target_id = codes "1-php" }
        ∷ record { source_id = codes "applicationId"; target_id = codes "2-php" }
        ∷ [];
  };
  block_id = some (codes "1-php");
  form = some cartridge_block_default;
}

abbrev updated : Workspace (List Connection)
updated = record half_filled {
  board = record half_filled.board {
    nodes = fill_at (codes "1-php") cartridge_block_default half_filled.board.nodes;
  };
  save_enabled = true;
}

test_update : component_info_update wires as_given application_editor half_filled ≡ ok updated
unfolding component_info_update update_form
test_update = refl

test_unfilled : all_filled (attributes_in updated.board.nodes) updated.board.plumb ≡ false
unfolding all_filled attributes_in fill_at text_eq
test_unfilled = refl

save_throws_example :
    (updated.save_enabled ≡ true)
    × (saved_application wires as_given no_fields updated ≡ throw syntax_error)
save_throws_example =
    save_throws wires as_given no_fields half_filled updated test_update test_unfilled

abbrev web : Group
web = group (codes "web") (cartridges_prop (codes "php" ∷ []) no_props)

-- The group is drawn and its cartridge updated.
abbrev web_drawn : Workspace (List Connection)
web_drawn = drop_group wires as_given unary web first_page

abbrev web_filled : Workspace (List Connection)
web_filled = record web_drawn {
  board = record web_drawn.board {
    nodes = fill_at (codes "-web-php") cartridge_block_default web_drawn.board.nodes;
  };
}

test_web_filled : all_filled (attributes_in web_filled.board.nodes) web_filled.board.plumb ≡ true
unfolding all_filled attributes_in fill_at text_eq drop_group add_jsplumb_group gen_props
    gen_jsplumb_cartridge
test_web_filled = refl

test_web_below : ids_below web (unary 0) ≡ codes "-web-php" ∷ []
unfolding paths flatten parts leaves join
test_web_below = refl

test_web_apart : distinct (dash (unary 0) (codes "web") ∷ ids_below web (unary 0)) ≡ true
unfolding paths flatten parts leaves join distinct mem text_eq
test_web_apart = refl

test_web_base : text_eq (dash (unary 0) (codes "web")) (base_id application_editor) ≡ false
unfolding text_eq
test_web_base = refl

unlinked_group_throws_example :
    saved_application wires as_given no_fields web_filled ≡ throw type_error
unlinked_group_throws_example =
    unlinked_group_throws wires as_given unary no_fields web (codes "-web-php") [] first_page
      web_filled refl refl test_web_filled test_web_below test_web_apart test_web_base
