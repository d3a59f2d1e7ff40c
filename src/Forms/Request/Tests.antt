-- ===== src/Forms/Request/Tests.antt =====
-- Tests of clicks on Save in the application editor.
use product_private_paas.Common.{codes, text_eq, ◌≡◌, ◌⊎◌, refl, false, none, some, List, [], ◌∷◌}
use product_private_paas.Json.{
  Fields, obj, arr, str, no_items, no_fields, field, get_field, put_field, delete_field,
}
use product_private_paas.Export.{
  Connection, DataType, ok, throw, syntax_error, gather, merge, hierarchy,
}
use product_private_paas.Export.Assemble.{
  application_fields, raw_tree, top_items, component, generate_jsplumb_tree,
}
use product_private_paas.Export.Cleanup.{traverse, traverse_fields, is_dropped, is_helper}
use product_private_paas.Forms.{attributes_in, saved_application}
use product_private_paas.Forms.Request.{
  Desk, ApplicationSave, throws_reading, sends, read_nodes, send_document,
}
use product_private_paas.Forms.Request.Forgets.{Moves, save_again_forgets}
use product_private_paas.Forms.Request.Clicks.{save-Moves}
use product_private_paas.Forms.Outcome.Tests.{linked, linked-EditorEvents, linked-plain}
use product_private_paas.Forms.Tests.{
  base_node, first_page, as_given, unary, unary-IsNumbering, base-unary,
}
use product_private_paas.Whiteboard.{Node, node_of}
use product_private_paas.Whiteboard.Removal.{application_editor}
use product_private_paas.Whiteboard.Tests.{wires}

-- The value of a form in which a startup order has been entered.
abbrev entered : Fields
entered = field (codes "applicationId") (str (codes "shop")) (
    field (codes "dependencies")
      (obj (field (codes "startupOrders") (str (codes "db,web")) no_fields)) no_fields)

abbrev unlinked_page : Desk (List Connection)
unlinked_page = record {
  workspace = first_page;
  value = entered;
  requests = [];
  feedback = record { notes = []; button = codes "Save"; leaves_later = false; left = false };
}

abbrev php : Node
php = node_of DataType.cartridge (codes "1-php") (codes "php")

-- A node without a document is connected.
abbrev unread_page : Desk (List Connection)
unread_page = record unlinked_page {
  workspace = record first_page {
    board = record first_page.board {
      nodes = base_node ∷ php ∷ [];
      plumb = record { source_id = codes "applicationId"; target_id = codes "1-php" } ∷ [];
    };
  };
}

abbrev clicked : Desk (List Connection)
clicked = record unread_page { value = application_fields entered no_items no_items }

reads_nothing : read_nodes wires as_given unread_page ≡ throw syntax_error
unfolding read_nodes raw_tree attributes_in text_eq
reads_nothing = refl

first_click : ApplicationSave wires as_given unread_page clicked
first_click = throws_reading unread_page syntax_error reads_nothing

-- The connection has been taken away since, and the value is as it was left.
abbrev cleared : Desk (List Connection)
cleared = record clicked {
  workspace = record first_page {
    board = record first_page.board { nodes = base_node ∷ php ∷ [] };
  };
}

abbrev sent : Fields
sent = field (codes "applicationId") (str (codes "shop")) (
    field (codes "components") (obj (field (codes "cartridges") (arr no_items) no_fields))
      no_fields)

writes_sent : saved_application wires as_given cleared.value cleared.workspace ≡ ok (obj sent)
unfolding saved_application generate_jsplumb_tree raw_tree hierarchy gather merge top_items
    component traverse traverse_fields is_dropped is_helper get_field put_field delete_field text_eq
writes_sent = refl

abbrev again : Desk (List Connection)
again = send_document wires as_given application_editor (obj sent) (record cleared { value = sent })

second_click : ApplicationSave wires as_given cleared again
second_click = sends cleared sent writes_sent

-- The page on which a cartridge is drawn and connected.
abbrev linked_page : Desk (List Connection)
linked_page = record unlinked_page { workspace = linked }

save-Moves_example :
    (e : Desk (List Connection)) × ApplicationSave wires as_given linked_page e
    × Moves wires as_given linked_page e
save-Moves_example =
    save-Moves wires as_given unary unary-IsNumbering first_page linked_page base-unary refl refl
      refl linked-EditorEvents linked-plain

save_again_forgets_example :
    (again.requests ≡ [])
    ⊎ ((fs : Fields) × (cs : Fields) × (again.requests
          ≡ record { form_payload = obj fs; formtype = codes "applications" } ∷ [])
        × (get_field (codes "components") fs ≡ some (obj cs))
        × (get_field (codes "dependencies") cs ≡ none))
save_again_forgets_example =
    save_again_forgets wires as_given unread_page clicked cleared again first_click refl
      second_click
