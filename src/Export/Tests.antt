-- ===== src/Export/Tests.antt =====
-- A group with a cartridge below it beside a cartridge of its own, drawn on the whiteboard.
use product_private_paas.Common.{
  Text, codes, text_eq, mem, distinct, ◌≡◌, refl, true, false, some, [], ◌∷◌,
}
use product_private_paas.Forest.{Row, names_of}
use product_private_paas.Json.{Fields, get_field}
use product_private_paas.Json.{Json, Fields, arr, obj, str, no_items, no_fields, field}
use product_private_paas.Export.{
  has_list, DataType, cartridge, group, Entry, RawTree, Hierarchy, ok, throw, type_error, hierarchy,
}
use product_private_paas.Export.Cleanup.Returns.{is_some, has_null_groups, traverse_returns}
use product_private_paas.Common.{not, if◌then◌else◌, none, List}
use product_private_paas.Forest.Trees.{Roses, node, nil, cons}
use product_private_paas.Forest.Layout.{flatten, flatten_all}
use product_private_paas.Export.{Connection, Attributes}
use product_private_paas.Export.Assemble.{
  raw_tree, group_raw_tree, finish, application_fields, group_document, generate_jsplumb_tree,
  gen_group_json,
}
use product_private_paas.Export.Drawing.{is_drawing, is_grouped}
use product_private_paas.Export.Walk.{items_of}
use product_private_paas.Export.Roundtrip.{generate_jsplumb_tree-drawn, gen_group_json-drawn}
use product_private_paas.Export.Sources.{are_plain, group_ids, has_group_sources}
use product_private_paas.Export.Parents.{IsHierarchy, hierarchy_places, hierarchy_throws}
use product_private_paas.Export.Cleanup.{is_helper, length_is_zero, is_dropped, traverse}
use product_private_paas.Export.Cleanup.Clean.{is_clean, traverse_cleans}

abbrev entry : Text → Text → DataType → Row Entry
entry id parent dtype = record {
  name = id;
  parent = some parent;
  payload = record { dtype = dtype; content = no_fields };
}

abbrev drawn : RawTree
drawn =
    entry (codes "1-php") (codes "applicationId") cartridge
    ∷ entry (codes "2-db") (codes "applicationId") group
    ∷ entry (codes "2-db-mysql") (codes "2-db") cartridge
    ∷ []

drawn-distinct : distinct (names_of drawn) ≡ true
unfolding distinct mem text_eq
drawn-distinct = refl

drawn-group_sources : has_group_sources (codes "applicationId") (group_ids drawn) drawn ≡ true
unfolding has_group_sources group_ids mem text_eq
drawn-group_sources = refl

hierarchy_places_example :
    (h : Hierarchy) × (hierarchy (codes "applicationId") drawn ≡ ok h)
    × IsHierarchy (codes "applicationId") drawn h
hierarchy_places_example =
    hierarchy_places (codes "applicationId") drawn drawn-distinct drawn-group_sources

-- A cartridge below a cartridge.
abbrev misdrawn : RawTree
misdrawn =
    entry (codes "1-php") (codes "applicationId") cartridge
    ∷ entry (codes "2-mysql") (codes "1-php") cartridge
    ∷ []

misdrawn-distinct : distinct (names_of misdrawn) ≡ true
unfolding distinct mem text_eq
misdrawn-distinct = refl

misdrawn-group_sources :
    has_group_sources (codes "applicationId") (group_ids misdrawn) misdrawn ≡ false
unfolding has_group_sources group_ids mem text_eq
misdrawn-group_sources = refl

misdrawn-are_plain : are_plain misdrawn ≡ true
unfolding are_plain has_list get_field text_eq
misdrawn-are_plain = refl

hierarchy_throws_example : hierarchy (codes "applicationId") misdrawn ≡ throw type_error
hierarchy_throws_example =
    hierarchy_throws (codes "applicationId") misdrawn misdrawn-distinct misdrawn-are_plain
      misdrawn-group_sources

abbrev written : Json
written = obj (
    field (codes "id") (str (codes "1-php"))
      (field (codes "type") (str (codes "php")) (field (codes "groups") (arr no_items) no_fields)))

abbrev cleaned : Json
cleaned = obj (field (codes "type") (str (codes "php")) no_fields)

written-traverse : traverse written ≡ some cleaned
unfolding traverse is_dropped is_helper length_is_zero text_eq
written-traverse = refl

traverse_cleans_example : (is_clean cleaned ≡ true) × (traverse cleaned ≡ some cleaned)
traverse_cleans_example = traverse_cleans written cleaned written-traverse

abbrev pub cname_of : Text → Fields
cname_of t = field (codes "cname") (str t) no_fields

-- Every node is a cartridge but "2-db".
abbrev pub attributes : Text → Attributes
attributes id = record {
  data_type = if text_eq id (codes "2-db") then group else cartridge;
  data_ctype = id;
  data_generated = some (cname_of id);
}

abbrev pub link : Text → Text → Connection
link source target = record { source_id = source; target_id = target }

abbrev links_below : Text → List Connection
links_below base =
    link base (codes "1-php")
    ∷ link base (codes "2-db")
    ∷ link (codes "2-db") (codes "2-db-mysql")
    ∷ []

abbrev forest : Roses Entry
forest =
    cons
      (node (codes "1-php") (record { dtype = cartridge; content = cname_of (codes "1-php") }) nil)
      (cons
        (node (codes "2-db") (record { dtype = group; content = cname_of (codes "2-db") })
          (cons
            (node (codes "2-db-mysql")
              (record { dtype = cartridge; content = cname_of (codes "2-db-mysql") }) nil)
            nil))
        nil)

forest-is_drawing : is_drawing (codes "applicationId") forest ≡ true
unfolding is_drawing is_grouped flatten distinct mem text_eq
forest-is_drawing = refl

forest-is_group_drawing : is_drawing (codes "group-base") forest ≡ true
unfolding is_drawing is_grouped flatten distinct mem text_eq
forest-is_group_drawing = refl

forest-raw_tree :
    raw_tree attributes (links_below (codes "applicationId"))
    ≡ ok (flatten_all (some (codes "applicationId")) forest)
unfolding raw_tree flatten text_eq
forest-raw_tree = refl

forest-group_raw_tree :
    group_raw_tree attributes (links_below (codes "group-base"))
    ≡ flatten_all (some (codes "group-base")) forest
unfolding group_raw_tree flatten text_eq
forest-group_raw_tree = refl

generate_jsplumb_tree-drawn_example :
    generate_jsplumb_tree attributes (links_below (codes "applicationId")) (cname_of (codes "shop"))
    ≡ finish (
        traverse (
          obj (
            application_fields
              (cname_of (codes "shop"))
              (items_of true true (some (codes "applicationId")) forest)
              (items_of false true (some (codes "applicationId")) forest))))
generate_jsplumb_tree-drawn_example =
    generate_jsplumb_tree-drawn attributes (links_below (codes "applicationId"))
      (cname_of (codes "shop")) forest forest-is_drawing forest-raw_tree

gen_group_json-drawn_example :
    gen_group_json attributes (links_below (codes "group-base")) none
    ≡ finish (
        traverse (
          obj (
            group_document none
              (items_of true false (some (codes "group-base")) forest)
              (items_of false false (some (codes "group-base")) forest))))
gen_group_json-drawn_example =
    gen_group_json-drawn attributes (links_below (codes "group-base")) none forest
      forest-is_group_drawing forest-group_raw_tree

traverse_returns_example : is_some (traverse written) ≡ not (has_null_groups written)
traverse_returns_example = traverse_returns written
