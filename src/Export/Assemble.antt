-- ===== src/Export/Assemble.antt =====
-- The two exporters as a whole: `generateJsplumbTree` of the application editor, and `genGroupJSON` of
-- the group editor. The fuel of the walk over the nodes is their number.
use product_private_paas.Common.{
  ℕ, zero, suc, Text, codes, Bool, true, false, Option, none, some, List, [], ◌∷◌, length,
  get_elem?, get_or, if◌then◌else◌,
}
use product_private_paas.Forest.{Row}
use product_private_paas.Json.{
  Json, Items, Fields, null, str, arr, obj, no_items, item, no_fields, field, get_field, put_field,
  delete_field,
}
use product_private_paas.Export.{
  Result, ok, throw, syntax_error, type_error, unending, ◌>>=◌, DataType, cartridge, group, Entry,
  RawTree, Connection, Attributes, Hierarchy, is_group, hierarchy,
}
use product_private_paas.Export.Cleanup.{traverse}

abbrev pub connection_row : Connection → DataType → Fields → Row Entry
connection_row c dtype content = record {
  name = c.target_id;
  parent = some c.source_id;
  payload = record { dtype = dtype; content = content };
}

-- The application editor parses the attribute, and `JSON.parse` throws where it is not there.
unfoldable pub raw_tree : (Text → Attributes) → List Connection → Result RawTree
raw_tree attr [] = ok []
raw_tree attr (c ∷ cs) =
    let rest = raw_tree attr cs in
    elim (attr c.target_id).data_generated [
      | none ↦ throw syntax_error
      | some content ↦
          rest >>= λ rows. ok (connection_row c (attr c.target_id).data_type content ∷ rows)
    ]

-- The group editor has `{cname: …}` for a node without the attribute.
abbrev pub group_value : Text → Option Fields → Fields
group_value name none = field (codes "cname") (str name) no_fields
group_value name (some content) = content

abbrev pub group_content : Attributes → Fields
group_content a = group_value a.data_ctype a.data_generated

unfoldable pub group_raw_tree : (Text → Attributes) → List Connection → RawTree
group_raw_tree attr [] = []
group_raw_tree attr (c ∷ cs) =
    connection_row c (attr c.target_id).data_type (group_content (attr c.target_id))
    ∷ group_raw_tree attr cs

abbrev type_name : DataType → Text
type_name cartridge = codes "cartridge"
type_name group = codes "group"

abbrev parent_id : Row Entry → Json
parent_id r = elim r.parent [ none ↦ null | some p ↦ str p ]

-- The writes to `n` in the loop over `rawtree`.
abbrev pub tagged : Row Entry → Fields
tagged r = put_field (codes "dtype") (str (type_name r.payload.dtype)) (
    put_field (codes "parent_id") (parent_id r)
      (put_field (codes "id") (str r.name) r.payload.content))

abbrev pub group_fields : Row Entry → Items → Items → Fields
group_fields r groups cartridges =
    put_field (codes "cartridges") (arr cartridges)
      (put_field (codes "groups") (arr groups) (tagged r))

-- What stands in a list of cartridges: the node, or `n.cname`; `undefined` is written as null.
abbrev cname : Row Entry → Json
cname r = elim (get_field (codes "cname") r.payload.content) [ none ↦ null | some v ↦ v ]

abbrev pub cartridge_item : Bool → Row Entry → Json
cartridge_item true r = obj (tagged r)
cartridge_item false r = cname r

abbrev pub collect_items : (ℕ → Option Json) → List ℕ → Option Items
collect_items f [] = some no_items
collect_items f (i ∷ is) = elim (f i) [
  | none ↦ none
  | some v ↦ elim (collect_items f is) [ none ↦ none | some vs ↦ some (item v vs) ]
]

abbrev pub node_json : Bool → Row Entry → Option Items → Option Items → Option Json
node_json whole r groups cartridges =
    if is_group r.payload.dtype
    then (elim groups [
      | none ↦ none
      | some gs ↦ elim cartridges [ none ↦ none | some cs ↦ some (obj (group_fields r gs cs)) ]
    ])
    else some (cartridge_item whole r)

-- The value of a node, with `whole` for the application editor.
unfoldable pub component : Bool → RawTree → Hierarchy → ℕ → ℕ → Option Json
component whole rows h zero i = none
component whole rows h (suc fuel) i =
    let part = λ (j : ℕ). component whole rows h fuel j in
    elim (get_elem? rows i) [
      | none ↦ none
      | some r ↦
          node_json whole r (collect_items part (get_or h.groups i []))
            (collect_items part (get_or h.cartridges i []))
    ]

-- The lists `groups` and `cartridges` at the top.
unfoldable pub top_items : Bool → RawTree → Hierarchy → Option (Items × Items)
unfolding component
top_items whole rows h =
    elim (collect_items (λ j. component whole rows h (length rows) j) h.top_groups) [
      | none ↦ none
      | some gs ↦
          elim (collect_items (λ j. component whole rows h (length rows) j) h.top_cartridges) [
            | none ↦ none
            | some cs ↦ some (gs, cs)
          ]
    ]

abbrev pub finish : Option Json → Result Json
finish none = throw type_error
finish (some v) = ok v

abbrev pub with_items : Option (Items × Items) → (Items → Items → Fields) → Result Json
with_items none f = throw unending
with_items (some p) f = finish (traverse (obj (f p.0 p.1)))

-- `components` with the lists and the dependencies, which move out of the editor's value.
abbrev pub components : Fields → Items → Items → Fields
components value gs cs = field (codes "groups") (arr gs) (
    field (codes "cartridges") (arr cs) (elim (get_field (codes "dependencies") value) [
      | none ↦ no_fields
      | some d ↦ field (codes "dependencies") d no_fields
    ]))

abbrev pub application_fields : Fields → Items → Items → Fields
application_fields value gs cs =
    delete_field (codes "dependencies")
      (put_field (codes "components") (obj (components value gs cs)) value)

-- `value` is `appeditor.getValue()`. The source writes into this object; what becomes of it, and where a
-- throw leaves it, stands in Forms/Request.
unfoldable pub generate_jsplumb_tree : (Text → Attributes) → List Connection → Fields → Result Json
unfolding raw_tree hierarchy top_items traverse
generate_jsplumb_tree attr connections value = do
  rows ← raw_tree attr connections
  h ← hierarchy (codes "applicationId") rows
  with_items (top_items true rows h) (application_fields value)

abbrev pub base_fields : Option Fields → Fields
base_fields none = no_fields
base_fields (some fs) = fs

abbrev pub group_document : Option Fields → Items → Items → Fields
group_document base gs cs =
    put_field (codes "cartridges") (arr cs) (put_field (codes "groups") (arr gs) (base_fields base))

-- `base` is the document in the attribute `data-generated` of the node `group-base`.
unfoldable pub gen_group_json : (Text → Attributes) → List Connection → Option Fields → Result Json
unfolding group_raw_tree hierarchy top_items traverse
gen_group_json attr connections base = do
  h ← hierarchy (codes "group-base") (group_raw_tree attr connections)
  with_items (top_items false (group_raw_tree attr connections) h) (group_document base)
