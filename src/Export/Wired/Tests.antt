-- ===== src/Export/Wired/Tests.antt =====
-- A group is drawn first, with the connection to its cartridge, and linked to the base node later.
use product_private_paas.Common.{
  Text, codes, text_eq, mem, distinct, length, ◌≡◌, refl, true, false, none, some, List, [], ◌∷◌,
}
use product_private_paas.Json.{obj}
use product_private_paas.Forest.Trees.{Roses, node, nil, cons}
use product_private_paas.Export.{Connection, Entry, RawTree, DataType, cartridge, group, ok}
use product_private_paas.Export.Assemble.{
  raw_tree, group_raw_tree, connection_row, finish, application_fields, group_document,
  generate_jsplumb_tree, gen_group_json,
}
use product_private_paas.Export.Cleanup.{traverse}
use product_private_paas.Export.Reading.{reading, read_rows}
use product_private_paas.Export.Sources.{group_ids, has_group_sources}
use product_private_paas.Export.Tests.{attributes, cname_of, link}
use product_private_paas.Export.Walk.{items_of}
use product_private_paas.Export.Wired.{
  is_wired, generate_jsplumb_tree-reading, gen_group_json-reading,
}

abbrev linked_later : Text → List Connection
linked_later base =
    link (codes "2-db") (codes "2-db-mysql")
    ∷ link base (codes "2-db")
    ∷ link base (codes "1-php")
    ∷ []

abbrev entry_of : Text → DataType → Entry
entry_of id type = record { dtype = type; content = cname_of id }

abbrev rows_later : Text → RawTree
rows_later base =
    connection_row (link (codes "2-db") (codes "2-db-mysql")) cartridge
      (cname_of (codes "2-db-mysql"))
    ∷ connection_row (link base (codes "2-db")) group (cname_of (codes "2-db"))
    ∷ connection_row (link base (codes "1-php")) cartridge (cname_of (codes "1-php"))
    ∷ []

abbrev later_forest : Roses Entry
later_forest =
    cons
      (node (codes "2-db") (entry_of (codes "2-db") group)
        (cons (node (codes "2-db-mysql") (entry_of (codes "2-db-mysql") cartridge) nil) nil))
      (cons (node (codes "1-php") (entry_of (codes "1-php") cartridge) nil) nil)

later-raw_tree :
    raw_tree attributes (linked_later (codes "applicationId"))
    ≡ ok (rows_later (codes "applicationId"))
unfolding raw_tree text_eq
later-raw_tree = refl

later-is_wired : is_wired (codes "applicationId") (rows_later (codes "applicationId")) ≡ true
unfolding is_wired has_group_sources group_ids distinct mem text_eq
later-is_wired = refl

generate_jsplumb_tree-reading_example :
    (ts : Roses Entry) × (reading (rows_later (codes "applicationId")) 3 (codes "applicationId")
      ≡ some ts)
    × (generate_jsplumb_tree attributes
          (linked_later (codes "applicationId"))
          (cname_of (codes "shop"))
        ≡ finish (
            traverse (
              obj (
                application_fields
                  (cname_of (codes "shop"))
                  (items_of true true (some (codes "applicationId")) ts)
                  (items_of false true (some (codes "applicationId")) ts)))))
generate_jsplumb_tree-reading_example =
    generate_jsplumb_tree-reading attributes (linked_later (codes "applicationId"))
      (cname_of (codes "shop")) (rows_later (codes "applicationId")) later-raw_tree later-is_wired

later_reading :
    reading (rows_later (codes "applicationId")) 3 (codes "applicationId") ≡ some later_forest
unfolding reading read_rows text_eq
later_reading = refl

later-is_group_wired :
    is_wired (codes "group-base") (group_raw_tree attributes (linked_later (codes "group-base")))
    ≡ true
unfolding is_wired has_group_sources group_ids distinct mem text_eq group_raw_tree
later-is_group_wired = refl

gen_group_json-reading_example :
    (ts : Roses Entry) × (reading
        (group_raw_tree attributes (linked_later (codes "group-base")))
        (length (group_raw_tree attributes (linked_later (codes "group-base"))))
        (codes "group-base")
      ≡ some ts)
    × (gen_group_json attributes (linked_later (codes "group-base")) none
        ≡ finish (
            traverse (
              obj (
                group_document none
                  (items_of true false (some (codes "group-base")) ts)
                  (items_of false false (some (codes "group-base")) ts)))))
gen_group_json-reading_example =
    gen_group_json-reading attributes (linked_later (codes "group-base")) none later-is_group_wired
