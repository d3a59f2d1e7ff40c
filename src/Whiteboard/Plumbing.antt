-- ===== src/Whiteboard/Plumbing.antt =====
-- What the editors call of jsPlumb, and what they rely on.
use product_private_paas.Common.{
  ℕ, Bool, true, false, Text, text_eq, ◌≡◌, List, [], ◌∷◌, ◌++◌, ◌||◌, if◌then◌else◌,
}
use product_private_paas.Export.{Connection}

pub data Anchor : Type 0 where
  top_center bottom_center : Anchor

-- What the options of an endpoint say of connections that are drawn by hand.
pub record EndpointOptions : Type 0 where
  pub is_source : Bool
  pub is_target : Bool
  pub max_connections : ℕ

abbrev pub bottom_connector_options : EndpointOptions
bottom_connector_options = record { is_source = true; is_target = false; max_connections = 20 }

abbrev pub endpoint_options : EndpointOptions
endpoint_options = record { is_source = false; is_target = true; max_connections = 1 }

abbrev pub group_options : EndpointOptions
group_options = record { is_source = false; is_target = true; max_connections = 1 }

abbrev pub generated_cartridge_endpoint_options : EndpointOptions
generated_cartridge_endpoint_options = record {
  is_source = false;
  is_target = false;
  max_connections = 1;
}

abbrev pub generated_group_options : EndpointOptions
generated_group_options = record { is_source = false; is_target = false; max_connections = 1 }

-- An endpoint, and the id of its element.
pub record End : Type 0 where
  pub element : Text
  pub options : EndpointOptions

-- The connections that do not end at the element.
unfoldable pub without : Text → List Connection → List Connection
without id [] = []
without id (c ∷ cs) =
    let rest = without id cs in
    if text_eq c.source_id id || text_eq c.target_id id then rest else c ∷ rest

-- Elements are known by their ids. `drop_endpoints` is the loop of `deleteNode` over
-- `jsPlumb.getEndpoints` of an element, with `jsPlumb.deleteEndpoint` of the endpoints it meets; what
-- becomes of the element's own connections there is left open.
pub record JsPlumb (S : Type 0) : Type 0 where
  pub get_connections : S → List Connection
  pub add_endpoint : Text → Anchor → S → S
  pub connect : Text → Text → S → S
  pub drop_endpoints : Text → S → S
  pub detach_all_connections : Text → S → S
  pub get-add_endpoint :
      (id : Text) (a : Anchor) (s : S) → get_connections (add_endpoint id a s) ≡ get_connections s
  pub get-connect :
      (source target : Text) (s : S)
      → get_connections (connect source target s)
        ≡ get_connections s ++ record { source_id = source; target_id = target } ∷ []
  pub get-drop_endpoints :
      (id : Text) (s : S)
      → without id (get_connections (drop_endpoints id s)) ≡ without id (get_connections s)
  pub get-detach_all_connections :
      (id : Text) (s : S)
      → get_connections (detach_all_connections id s) ≡ without id (get_connections s)
