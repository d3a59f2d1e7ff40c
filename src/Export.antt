-- ===== src/Export.antt =====
-- `generateJsplumbTree` of
-- components/org.wso2.ppaas.manager.console/console/themes/privatePaaS/js/custom/applications-editor.js
-- and `genGroupJSON` of applications_group_editor.js beside it: the document of an application, or
-- of a group, from the connections that are drawn on the whiteboard. The nodes are objects that the
-- lists share, so a node is known by its place in `nodes`.
pub mod Cleanup
pub mod Sources
pub mod Merge
pub mod Parents
pub mod Assemble
pub mod Pick
pub mod Walk
pub mod Drawing
pub mod Roundtrip
pub mod Reading
pub mod Wired
pub mod Tests
use product_private_paas.Common.{
  ℕ, zero, suc, Text, codes, text_eq, Bool, true, false, Option, none, some, List, [], ◌∷◌, ◌++◌,
  length, get_elem?, replicate, if◌then◌else◌,
}
use product_private_paas.Objects.{Object, get_key}
use product_private_paas.Objects.Index.{index_from}
use product_private_paas.Forest.{Row, parent_key, push_at, data_map}
use product_private_paas.Json.{Json, Fields, null, bool, num, str, arr, obj, get_field}

-- What the browser throws. Two marks stand beside it: `unending` for a walk that does not end within
-- its fuel, and `left_open` where a cartridge is the parent of a node and its value has a list for it;
-- the browser goes on there, and what the document becomes is not modelled.
pub data Thrown : Type 0 where
  syntax_error type_error unending left_open : Thrown

pub data Result {ℓ} (A : Type ℓ) : Type ℓ where
  ok : A → Result A
  throw : Thrown → Result A

infixl 5 ◌>>=◌
abbrev pub ◌>>=◌ {ℓ κ} : {A : Type ℓ} {B : Type κ} → Result A → (A → Result B) → Result B
ok a >>= f = f a
throw e >>= f = throw e

-- The attribute `data-type`.
pub data DataType : Type 0 where
  cartridge group : DataType

abbrev pub is_group : DataType → Bool
is_group cartridge = false
is_group group = true

-- `content` and `dtype` of an entry of `rawtree`. Its `id` is the name of the row, its `parent` the
-- row's parent.
pub record Entry : Type 0 where
  pub dtype : DataType
  pub content : Fields

abbrev pub RawTree : Type 0
RawTree = List (Row Entry)

-- `jsPlumb.getConnections()`
pub record Connection : Type 0 where
  pub source_id : Text
  pub target_id : Text

-- The attributes of a node of the whiteboard; `data_generated` is the document in the attribute
-- `data-generated`, which the editor wrote there.
pub record Attributes : Type 0 where
  pub data_type : DataType
  pub data_ctype : Text
  pub data_generated : Option Fields

-- The `groups` and the `cartridges` of each node, and those of the document itself.
pub record Hierarchy : Type 0 where
  pub groups : List (List ℕ)
  pub cartridges : List (List ℕ)
  pub top_groups : List ℕ
  pub top_cartridges : List ℕ

abbrev pub start : RawTree → Hierarchy
start rows = record {
  groups = replicate (length rows) [];
  cartridges = replicate (length rows) [];
  top_groups = [];
  top_cartridges = [];
}

abbrev pub push_top : DataType → ℕ → Hierarchy → Hierarchy
push_top cartridge i h = record h { top_cartridges = h.top_cartridges ++ i ∷ [] }
push_top group i h = record h { top_groups = h.top_groups ++ i ∷ [] }

abbrev pub push_child : DataType → ℕ → ℕ → Hierarchy → Hierarchy
push_child cartridge j i h = record h { cartridges = push_at j i h.cartridges }
push_child group j i h = record h { groups = push_at j i h.groups }

abbrev pub at_base : Text → Row Entry → Bool
at_base base r = text_eq (parent_key r.parent) base

-- The loop over `rawtree`, from the entry at `i` on.
unfoldable pub gather : Text → ℕ → RawTree → Hierarchy → Hierarchy
gather base i [] h = h
gather base i (r ∷ rows) h =
    gather base (suc i) rows (if at_base base r then push_top r.payload.dtype i h else h)

-- Does the value have the method `concat`?
abbrev pub joins : Option Json → Bool
joins none = false
joins (some null) = false
joins (some (bool b)) = false
joins (some (num n)) = false
joins (some (str s)) = true
joins (some (arr vs)) = true
joins (some (obj fs)) = false

abbrev pub list_name : DataType → Text
list_name cartridge = codes "cartridges"
list_name group = codes "groups"

-- Does a value from a form have a list of its own for nodes of the type?
unfoldable pub has_list : DataType → Fields → Bool
unfolding get_field
has_list type content = joins (get_field (list_name type) content)

-- The node `lookupList[n.parent_id]` is a cartridge, which gets no lists in the first loop.
abbrev pub cartridge_parent : Bool → Result ℕ
cartridge_parent true = throw left_open
cartridge_parent false = throw type_error

-- `lookupList[n.parent_id]['groups'].concat([n])` for a group `n`, and with 'cartridges' for a
-- cartridge: without such a node the read throws, and so does a cartridge without such a list.
unfoldable pub parent_group : Object ℕ → RawTree → DataType → Text → Result ℕ
unfolding has_list
parent_group lookup_list nodes type parent_id = elim (get_key parent_id lookup_list) [
  | none ↦ throw type_error
  | some j ↦ elim (get_elem? nodes j) [
    | none ↦ throw type_error
    | some p ↦
        if is_group p.payload.dtype
        then ok j
        else cartridge_parent (has_list type p.payload.content)
  ]
]

-- The loop over `nodes`, from the node at `i` on.
unfoldable pub merge : Text → RawTree → ℕ → RawTree → Hierarchy → Result Hierarchy
unfolding parent_group data_map
merge base nodes i [] h = ok h
merge base nodes i (r ∷ rows) h =
    let rest = λ (h' : Hierarchy). merge base nodes (suc i) rows h' in
    if at_base base r then rest h else (do
      j ← parent_group (data_map nodes) nodes r.payload.dtype (parent_key r.parent)
      rest (push_child r.payload.dtype j i h))

unfoldable pub hierarchy : Text → RawTree → Result Hierarchy
unfolding gather merge
hierarchy base rows = merge base rows 0 rows (gather base 0 rows (start rows))
