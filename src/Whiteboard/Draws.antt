-- ===== src/Whiteboard/Draws.antt =====
-- A board with further rows drawn, and the steps that draw one row.
use product_private_paas.Common.{
  Text, ◌≡◌, refl, sym, ap, ◌∙◌, none, some, List, [], ◌∷◌, ◌++◌, map, append_assoc, append-nil,
}
use mathlib.Core.List.{map-append}
use product_private_paas.Forest.{Row}
use product_private_paas.GroupTree.{NodeType, groups, cartridges}
use product_private_paas.Export.{DataType}
use product_private_paas.Whiteboard.{Board, node_of, append_node, end_at, connect, draw_group}
use product_private_paas.Whiteboard.Plumbing.{
  top_center, bottom_center, JsPlumb, bottom_connector_options, group_options,
  generated_cartridge_endpoint_options, generated_group_options,
}
use product_private_paas.Whiteboard.Ends.{end_of, ends_of, ends_of-append}
use product_private_paas.Whiteboard.Paths.{Shape, row_node, links_of, links_of-append}

module _ {S : Type 0} (p : JsPlumb S) where
  -- `b'` is `b` with the rows drawn.
  pub record Draws (rows : List (Row (Shape NodeType))) (b b' : Board S) : Type 0 where
    pub nodes_drawn : b'.nodes ≡ b.nodes ++ map row_node rows
    pub links_drawn : p.get_connections b'.plumb ≡ p.get_connections b.plumb ++ links_of rows
    pub endpoints_drawn : b'.ends ≡ b.ends ++ ends_of rows

  pub Draws-nil : (b : Board S) → Draws [] b b
  unfolding links_of ends_of
  Draws-nil b = record {
    nodes_drawn = sym (append-nil b.nodes);
    links_drawn = sym (append-nil (p.get_connections b.plumb));
    endpoints_drawn = sym (append-nil b.ends);
  }

  pub Draws-append :
      (xs ys : List (Row (Shape NodeType))) (a b c : Board S)
      → Draws xs a b
      → Draws ys b c
      → Draws (xs ++ ys) a c
  Draws-append xs ys a b c f g = record {
    nodes_drawn =
        g.nodes_drawn
        ∙ ap (λ n. n ++ map row_node ys) f.nodes_drawn
        ∙ append_assoc a.nodes (map row_node xs) (map row_node ys)
        ∙ ap (λ n. a.nodes ++ n) (sym (map-append row_node xs ys));
    links_drawn =
        g.links_drawn
        ∙ ap (λ n. n ++ links_of ys) f.links_drawn
        ∙ append_assoc (p.get_connections a.plumb) (links_of xs) (links_of ys)
        ∙ ap (λ n. p.get_connections a.plumb ++ n) (sym (links_of-append xs ys));
    endpoints_drawn =
        g.endpoints_drawn
        ∙ ap (λ n. n ++ ends_of ys) f.endpoints_drawn
        ∙ append_assoc a.ends (ends_of xs) (ends_of ys)
        ∙ ap (λ n. a.ends ++ n) (sym (ends_of-append xs ys));
  }

  pub Draws-cartridge :
      (id c parent : Text) (b : Board S)
      → Draws
          (record {
            name = id;
            parent = some parent;
            payload = record { kind = cartridges; name = c };
          }
            ∷ [])
          b
          (connect p parent id (
            end_at p top_center generated_cartridge_endpoint_options id
              (append_node p (node_of DataType.cartridge id c) b)))
  unfolding links_of ends_of
  Draws-cartridge id c parent b = record {
    nodes_drawn = refl;
    links_drawn =
        p.get-connect parent id (p.add_endpoint id top_center b.plumb)
        ∙ ap (λ s. s ++ record { source_id = parent; target_id = id } ∷ [])
            (p.get-add_endpoint id top_center b.plumb);
    endpoints_drawn = refl;
  }

  pub ends_drawn :
      (id : Text) (b : Board S)
      → p.get_connections (p.add_endpoint id top_center (p.add_endpoint id bottom_center b.plumb))
        ≡ p.get_connections b.plumb
  ends_drawn id b =
      p.get-add_endpoint id top_center (p.add_endpoint id bottom_center b.plumb)
      ∙ p.get-add_endpoint id bottom_center b.plumb

  pub Draws-group :
      (id n parent : Text) (b : Board S)
      → Draws
          (record { name = id; parent = some parent; payload = record { kind = groups; name = n } }
            ∷ [])
          b
          (draw_group p id n parent b)
  unfolding links_of ends_of
  Draws-group id n parent b = record {
    nodes_drawn = refl;
    links_drawn =
        p.get-connect parent id
          (p.add_endpoint id top_center (p.add_endpoint id bottom_center b.plumb))
        ∙ ap (λ s. s ++ record { source_id = parent; target_id = id } ∷ []) (ends_drawn id b);
    endpoints_drawn =
        append_assoc b.ends (end_of bottom_connector_options id ∷ [])
          (end_of generated_group_options id ∷ []);
  }

  pub Draws-root :
      (id n : Text) (b : Board S)
      → Draws
          (record { name = id; parent = none; payload = record { kind = groups; name = n } } ∷ [])
          b
          (end_at p top_center group_options id (
            end_at p bottom_center bottom_connector_options id
              (append_node p (node_of DataType.group id n) b)))
  unfolding links_of ends_of
  Draws-root id n b = record {
    nodes_drawn = refl;
    links_drawn = ends_drawn id b ∙ sym (append-nil (p.get_connections b.plumb));
    endpoints_drawn =
        append_assoc b.ends (end_of bottom_connector_options id ∷ [])
          (end_of group_options id ∷ []);
  }
