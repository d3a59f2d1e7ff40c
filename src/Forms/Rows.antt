-- ===== src/Forms/Rows.antt =====
-- The rows that Save reads from a page on which no two connections lead to the same node.
use product_private_paas.Forms.{attributes_in}
use product_private_paas.Whiteboard.{Node}
use product_private_paas.Common.{
  codes, ◌&&◌, Option-cases, Text, mem, distinct, ◌≡◌, refl, ap, ◌∙◌, true, false, some, List, [],
  ◌∷◌, length, Bool-cases, inl, inr, ◌⊎◌, arith, sym, text_eq, Bool,
}
use product_private_paas.Json.{Fields, Json, field, no_fields, str, get_field}
use product_private_paas.Export.{
  DataType, has_list, throw, type_error, Attributes, Connection, Entry, RawTree, hierarchy, ok,
}
use product_private_paas.Export.Cleanup.{traverse}
use product_private_paas.Export.Assemble.{
  connection_row, group_content, group_value, raw_tree, group_raw_tree, generate_jsplumb_tree,
  finish, application_fields,
}
use product_private_paas.Json.{obj}
use product_private_paas.Export.Parents.{hierarchy_throws}
use product_private_paas.Export.Reading.{reading}
use product_private_paas.Export.Sources.{plain_value, are_plain, group_ids, has_group_sources}
use product_private_paas.Export.Wired.{Result-cases, is_wired, generate_jsplumb_tree-reading}
use product_private_paas.Export.Walk.{items_of}
use product_private_paas.Forest.{names_of}
use product_private_paas.Forest.Trees.{Roses}
use product_private_paas.Whiteboard.Removal.{application_editor, base_id}
use product_private_paas.Whiteboard.Targets.{targets}

pub names-group_raw_tree :
    (attr : Text → Attributes) (cs : List Connection)
    → names_of (group_raw_tree attr cs) ≡ targets cs
unfolding group_raw_tree
names-group_raw_tree attr [] = refl
names-group_raw_tree attr (c ∷ cs) = ap (λ l. c.target_id ∷ l) (names-group_raw_tree attr cs)

pub wired_of :
    (base : Text) (cs : List Connection) (rows : RawTree)
    → names_of rows ≡ targets cs
    → distinct (targets cs) ≡ true
    → mem base (targets cs) ≡ false
    → has_group_sources base (group_ids rows) rows ≡ true
    → is_wired base rows ≡ true
unfolding is_wired
wired_of base cs rows e d m h = ground (arith, ap distinct e, ap (mem base) e, d, m, h)

-- The rows of plain values.
pub are_plain-raw_tree :
    (attr : Text → Attributes) (cs : List Connection) (rows : RawTree)
    → ((id : Text) → plain_value (attr id).data_type (attr id).data_generated ≡ true)
    → raw_tree attr cs ≡ ok rows
    → are_plain rows ≡ true
unfolding raw_tree are_plain
are_plain-raw_tree attr [] rows plain h = let e : [] ≡ rows = cc in sym (ap are_plain e)
are_plain-raw_tree attr (c ∷ cs) rows plain h =
    elim (Option-cases (attr c.target_id).data_generated) [
      | inl e ↦ absurd (ground (arith, e, h))
      | inr (content, e) ↦ elim (Result-cases (raw_tree attr cs)) [
        | inr (x, u) ↦ absurd (ground (arith, e, u, h))
        | inl (rs, u) ↦
            let same : connection_row c (attr c.target_id).data_type content ∷ rs ≡ rows =
              ground (arith, e, u, h) in
            let first : plain_value (attr c.target_id).data_type (some content) ≡ true =
              ap (plain_value (attr c.target_id).data_type) (sym e) ∙ plain c.target_id in
            sym (ap are_plain same) ∙ ground (arith, first, are_plain-raw_tree attr cs rs plain u)
      ]
    ]

plain_cname :
    (type : DataType) (name : Json)
    → plain_value type (some (field (codes "cname") name no_fields)) ≡ true
unfolding has_list get_field text_eq
plain_cname DataType.group name = refl
plain_cname DataType.cartridge name = refl

plain-group_content :
    (a : Attributes)
    → plain_value a.data_type a.data_generated ≡ true
    → plain_value a.data_type (some (group_content a)) ≡ true
plain-group_content a plain = elim (Option-cases a.data_generated) [
  | inl e ↦
      ap (λ o. plain_value a.data_type (some (group_value a.data_ctype o))) e
      ∙ plain_cname a.data_type (str a.data_ctype)
  | inr (v, e) ↦
      ap (λ o. plain_value a.data_type (some (group_value a.data_ctype o))) e
      ∙ ap (plain_value a.data_type) (sym e)
      ∙ plain
]

pub are_plain-group_raw_tree :
    (attr : Text → Attributes) (cs : List Connection)
    → ((id : Text) → plain_value (attr id).data_type (attr id).data_generated ≡ true)
    → are_plain (group_raw_tree attr cs) ≡ true
unfolding group_raw_tree are_plain
are_plain-group_raw_tree attr [] plain = refl
are_plain-group_raw_tree attr (c ∷ cs) plain = ground (
  arith,
  plain-group_content (attr c.target_id) (plain c.target_id),
  are_plain-group_raw_tree attr cs plain,
)

-- The values on the page are plain.
unfoldable pub plain_nodes : List Node → Bool
plain_nodes [] = true
plain_nodes (n ∷ ns) = plain_value n.data_type n.data_generated && plain_nodes ns

pub plain-attributes_in :
    (ns : List Node) (id : Text)
    → plain_nodes ns ≡ true
    → plain_value (attributes_in ns id).data_type (attributes_in ns id).data_generated ≡ true
unfolding plain_nodes attributes_in
plain-attributes_in [] id h = refl
plain-attributes_in (n ∷ ns) id h = elim (Bool-cases (text_eq id n.id)) [
  | inl e ↦ rw e (ground (arith, h))
  | inr e ↦ rw e (plain-attributes_in ns id (ground (arith, h)))
]

-- What becomes of rows in the application editor.
pub application_rows :
    (attr : Text → Attributes) (cs : List Connection) (value : Fields) (rows : RawTree)
    → raw_tree attr cs ≡ ok rows
    → names_of rows ≡ targets cs
    → distinct (targets cs) ≡ true
    → mem (base_id application_editor) (targets cs) ≡ false
    → are_plain rows ≡ true
    → ((has_group_sources (base_id application_editor) (group_ids rows) rows ≡ false)
        × (generate_jsplumb_tree attr cs value ≡ throw type_error))
      ⊎ ((has_group_sources (base_id application_editor) (group_ids rows) rows ≡ true)
          × (ts : Roses Entry) × (reading rows (length rows) (base_id application_editor) ≡ some ts)
          × (generate_jsplumb_tree attr cs value
              ≡ finish (
                  traverse (
                    obj (
                      application_fields value
                        (items_of true true (some (base_id application_editor)) ts)
                        (items_of false true (some (base_id application_editor)) ts))))))
unfolding generate_jsplumb_tree
application_rows attr cs value rows read e d m plain =
    elim (Bool-cases (has_group_sources (base_id application_editor) (group_ids rows) rows)) [
      | inl h ↦
          let (ts, read_as, saved_as) =
            generate_jsplumb_tree-reading attr cs value rows read
              (wired_of (base_id application_editor) cs rows e d m h) in
          inr (h, ts, read_as, saved_as)
      | inr h ↦
          let thrown : hierarchy (base_id application_editor) rows ≡ throw type_error =
            hierarchy_throws (base_id application_editor) rows (ap distinct e ∙ d) plain h in
          inl (h, rw (read, thrown) refl)
    ]
