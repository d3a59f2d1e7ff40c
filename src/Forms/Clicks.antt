-- ===== src/Forms/Clicks.antt =====
-- What the button Update writes, and what becomes of it in the group editor's document.
use product_private_paas.Common.{
  Text, codes, text_eq, text_eq_iff, text_eq_refl, mem, ◌≡◌, refl, ap, ◌∙◌, true, false, Option,
  none, some, List, [], ◌∷◌, arith, if◌then◌else◌,
}
use product_private_paas.Json.{Json, Fields, null, obj, no_items, item, get_field}
use product_private_paas.Export.{
  Result, ok, ◌>>=◌, Attributes, Connection, DataType, RawTree, hierarchy, gather, merge,
}
use product_private_paas.Export.Assemble.{
  connection_row, group_value, group_content, group_raw_tree, top_items, component, with_items,
  finish, group_document, gen_group_json,
}
use product_private_paas.Export.Cleanup.{traverse}
use product_private_paas.Forms.{
  Workspace, Schema, fill_at, attributes_in, open_form, component_info_update, update_form,
  group_tab_data_of, enables, saved_group,
}
use product_private_paas.Whiteboard.{Node}
pub use product_private_paas.Whiteboard.{node_ids}
use product_private_paas.Whiteboard.Plumbing.{JsPlumb}
use product_private_paas.Whiteboard.Removal.{group_editor, base_id}

pub node_ids-fill_at :
    (id : Text) (v : Fields) (ns : List Node) → node_ids (fill_at id v ns) ≡ node_ids ns
unfolding fill_at
node_ids-fill_at id v [] = refl
node_ids-fill_at id v (n ∷ ns) = ground (arith, node_ids-fill_at id v ns)

-- The first node of the id has the value, and all others keep theirs.
pub attributes_in-fill_at :
    (k id : Text) (v : Fields) (ns : List Node)
    → mem id (node_ids ns) ≡ true
    → (attributes_in (fill_at id v ns) k).data_generated
      ≡ (if text_eq k id then some v else (attributes_in ns k).data_generated)
unfolding fill_at attributes_in mem
attributes_in-fill_at k id v [] h = cc h
attributes_in-fill_at k id v (n ∷ ns) h = ground (
  arith,
  h,
  text_eq_iff k id,
  text_eq_iff k n.id,
  text_eq_iff id n.id,
  attributes_in-fill_at k id v ns,
)

pub attributes_in-fill_at-data_type :
    (k id : Text) (v : Fields) (ns : List Node)
    → (attributes_in (fill_at id v ns) k).data_type ≡ (attributes_in ns k).data_type
unfolding fill_at attributes_in
attributes_in-fill_at-data_type k id v [] = refl
attributes_in-fill_at-data_type k id v (n ∷ ns) =
    ground (arith, attributes_in-fill_at-data_type k id v ns)

-- A connection of the base node.
abbrev pub base_to : Text → Connection
base_to k = record { source_id = codes "group-base"; target_id = k }

-- The document from `rawtree`.
abbrev gen_rows : Option Fields → RawTree → Result Json
gen_rows base rows = hierarchy (codes "group-base") rows >>= λ h.
    with_items (top_items false rows h) (group_document base)

-- The document with one node, a cartridge without `cname`.
gen_rows-one_cartridge :
    (k : Text) (content : Fields) (base : Option Fields)
    → get_field (codes "cname") content ≡ none
    → gen_rows base (connection_row (base_to k) DataType.cartridge content ∷ [])
      ≡ finish (traverse (obj (group_document base no_items (item null no_items))))
unfolding hierarchy gather merge top_items component text_eq
gen_rows-one_cartridge k content base e = rw e refl

gen_group_json-one_cartridge :
    (attr : Text → Attributes) (k : Text) (v : Fields) (base : Option Fields)
    → (attr k).data_type ≡ DataType.cartridge
    → (attr k).data_generated ≡ some v
    → get_field (codes "cname") v ≡ none
    → gen_group_json attr (base_to k ∷ []) base
      ≡ finish (traverse (obj (group_document base no_items (item null no_items))))
unfolding gen_group_json group_raw_tree
gen_group_json-one_cartridge attr k v base t h e =
    ap (λ type. gen_rows base (connection_row (base_to k) type (group_content (attr k)) ∷ [])) t
    ∙ ap
        (λ o.
          gen_rows base (
            connection_row (base_to k) DataType.cartridge (group_value (attr k).data_ctype o) ∷ []))
        h
    ∙ gen_rows-one_cartridge k v base e

module _ {S : Type 0} (p : JsPlumb S) (opened : Schema → Fields → Fields) where
  open_form-cartridge :
      (n : Node) (s : Workspace S)
      → n.data_type ≡ DataType.cartridge
      → open_form p opened group_editor n s ≡ record s { block_id = some n.id }
  unfolding open_form group_tab_data_of
  open_form-cartridge n s t =
      ap (λ type. group_tab_data_of p opened (some type) n (record s { block_id = some n.id })) t

  -- The page after Update.
  abbrev filled_page : Node → Fields → Workspace S → Workspace S
  filled_page n v s = record s {
    block_id = some n.id;
    board = record s.board { nodes = fill_at n.id v s.board.nodes };
    save_enabled =
        if enables p opened group_editor (record s { block_id = some n.id })
        then true
        else s.save_enabled;
  }

  update_written :
      (n : Node) (v : Fields) (s : Workspace S)
      → s.form ≡ some v
      → component_info_update p opened group_editor (record s { block_id = some n.id })
        ≡ ok (filled_page n v s)
  unfolding component_info_update update_form
  update_written n v s h =
      ap (λ form. update_form p opened group_editor form (record s { block_id = some n.id })) h

  -- In the group editor, where the base node has one connection and this leads to a cartridge, the first
  -- node of its id: a click on this cartridge opens no form, so Update writes the value of the form that
  -- was opened before it, and does not throw. If that value has no `cname`, then the document of the next
  -- Save is the one of the base node with no groups, and with null for the cartridge, cleaned.
  pub update_loses_cartridge :
      (n : Node) (v : Fields) (s : Workspace S)
      → n.data_type ≡ DataType.cartridge
      → mem n.id (node_ids s.board.nodes) ≡ true
      → (attributes_in s.board.nodes n.id).data_type ≡ DataType.cartridge
      → text_eq (base_id group_editor) n.id ≡ false
      → p.get_connections s.board.plumb ≡ base_to n.id ∷ []
      → s.form ≡ some v
      → get_field (codes "cname") v ≡ none
      → (q : Workspace S) × (component_info_update p opened group_editor
            (open_form p opened group_editor n s)
          ≡ ok q)
        × (saved_group p opened q
            ≡ finish (
                traverse (
                  obj (
                    group_document
                      (attributes_in s.board.nodes (base_id group_editor)).data_generated
                      no_items
                      (item null no_items)))))
  unfolding saved_group
  update_loses_cartridge n v s t m first apart linked h no_cname =
      let filled : Workspace S = filled_page n v s in
      let at_n =
        attributes_in-fill_at n.id n.id v s.board.nodes m
        ∙ ap (λ b. if b then some v else (attributes_in s.board.nodes n.id).data_generated)
            (text_eq_refl n.id) in
      let at_base =
        attributes_in-fill_at (base_id group_editor) n.id v s.board.nodes m
        ∙ ap
            (λ b.
              if b
              then some v
              else (attributes_in s.board.nodes (base_id group_editor)).data_generated)
            apart in
      (
        filled,
        ap (component_info_update p opened group_editor) (open_form-cartridge n s t)
            ∙ update_written n v s h,
        ap
              (λ cs.
                gen_group_json (attributes_in filled.board.nodes) cs
                  (attributes_in filled.board.nodes (base_id group_editor)).data_generated)
              linked
            ∙ ap (gen_group_json (attributes_in filled.board.nodes) (base_to n.id ∷ [])) at_base
            ∙ gen_group_json-one_cartridge (attributes_in filled.board.nodes) n.id v
                (attributes_in s.board.nodes (base_id group_editor)).data_generated
                (attributes_in-fill_at-data_type n.id n.id v s.board.nodes ∙ first) at_n no_cname,
      )
