-- ===== src/Forms/Distinct.antt =====
-- The ids of the nodes in the two editors, after any sequence of events.
use product_private_paas.Common.{
  if◌then◌else◌, ℕ, Text, text_eq, text_eq_sound, mem, distinct, ◌≡◌, refl, sym, ap, ◌∙◌, subst,
  Bool, true, false, not, Option, none, some, List, [], ◌∷◌, arith, Bool-cases, inl, inr,
}
use product_private_paas.Json.{Fields}
use product_private_paas.Export.{ok, DataType}
use product_private_paas.Forms.{
  Workspace, Schema, fill_in, open_form, clicked_node, tab_data_of, group_tab_data_of, enables,
  drop_group_node, block_type, component_info_update, update_form, drop_cartridge, drop_group,
}
use product_private_paas.Forms.Clicks.{node_ids, node_ids-fill_at}
use product_private_paas.Whiteboard.{Node, Board}
use product_private_paas.Whiteboard.Keys.{before_dash, key}
use product_private_paas.Whiteboard.Plumbing.{JsPlumb}
use product_private_paas.Whiteboard.Removal.{
  Editor, application_editor, group_editor, base_id, delete_node, delete_node-removes,
  delete_node-keeps,
}
use product_private_paas.Forms.Events.{
  IsNumbering, EditorEvent, EditorEvents, drops_cartridge, drops_group, drops_node, opens, edits,
  updates, deletes, connects, rest, next,
}
use product_private_paas.Forms.Tidy.{
  Tidy, Tidy-same, Tidy-others, Tidy-cartridge, Tidy-group, Tidy-group_node, Tidy-group_node,
}

module _ {S : Type 0} (p : JsPlumb S) (opened : Schema → Fields → Fields) (number : ℕ → Text)
    (editor : Editor) (change : Board S → S → Type 0) where
  module _ (numbering : IsNumbering number) where
    pub open_form_board :
        (type : Option DataType) (n : Node) (s : Workspace S)
        → ((tab_data_of p opened type n s).board ≡ s.board)
          × ((tab_data_of p opened type n s).counter ≡ s.counter)
    unfolding tab_data_of
    open_form_board none n s = (refl, refl)
    open_form_board (some DataType.cartridge) n s = (refl, refl)
    open_form_board (some DataType.group) n s = (refl, refl)

    pub group_form_board :
        (type : Option DataType) (n : Node) (s : Workspace S)
        → ((group_tab_data_of p opened type n s).board ≡ s.board)
          × ((group_tab_data_of p opened type n s).counter ≡ s.counter)
    unfolding group_tab_data_of
    group_form_board none n s = (refl, refl)
    group_form_board (some DataType.cartridge) n s = (refl, refl)
    group_form_board (some DataType.group) n s = (refl, refl)

    opened_board :
        (editor : Editor) (n : Node) (s : Workspace S)
        → (node_ids (open_form p opened editor n s).board.nodes ≡ node_ids s.board.nodes)
          × ((open_form p opened editor n s).counter ≡ s.counter)
    unfolding open_form
    opened_board application_editor n s =
        let clicked : Workspace S = clicked_node p opened application_editor n s in
        let (b, c) = open_form_board (block_type application_editor n) n clicked in
        (ap (λ (x : Board S). node_ids x.nodes) b, c)
    opened_board group_editor n s =
        let clicked : Workspace S = clicked_node p opened group_editor n s in
        let (b, c) = group_form_board (block_type group_editor n) n clicked in
        (ap (λ (x : Board S). node_ids x.nodes) b, c)

    abbrev pub IsTidy : Workspace S → Type 0
    IsTidy s = Tidy p opened number s.board.nodes s.counter

    IsTidy-same :
        (s q : Workspace S)
        → node_ids q.board.nodes ≡ node_ids s.board.nodes
        → q.counter ≡ s.counter
        → IsTidy s
        → IsTidy q
    IsTidy-same s q e c t =
        subst (λ k. Tidy p opened number q.board.nodes k) (sym c)
          (Tidy-same p opened number numbering s.board.nodes q.board.nodes s.counter e t)

    pub fill_in-ids :
        (id : Option Text) (v : Fields) (ns : List Node) → node_ids (fill_in id v ns) ≡ node_ids ns
    fill_in-ids none v ns = refl
    fill_in-ids (some id) v ns = node_ids-fill_at id v ns

    IsTidy-update :
        (form : Option Fields) (s q : Workspace S)
        → update_form p opened editor form s ≡ ok q
        → IsTidy s
        → IsTidy q
    unfolding update_form
    IsTidy-update none s q h t = cc h
    IsTidy-update (some v) s q h t =
        let after : Workspace S = record s {
          board = record s.board { nodes = fill_in s.block_id v s.board.nodes };
          save_enabled = if enables p opened editor s then true else s.save_enabled;
        } in
        let same : after ≡ q = cc h in
        subst IsTidy same (IsTidy-same s after (fill_in-ids s.block_id v s.board.nodes) refl t)

    Tidy-delete_node :
        (sure : Bool) (n : Node) (s : Workspace S)
        → IsTidy s
        → Tidy p opened number (delete_node p editor sure n s.board).nodes s.counter
    Tidy-delete_node false n s t =
        subst (λ ns. Tidy p opened number ns s.counter)
          (sym (delete_node-keeps p editor false n s.board refl).0) t
    Tidy-delete_node true n s t = elim (Bool-cases (text_eq n.id (base_id editor))) [
      | inl e ↦
          subst (λ ns. Tidy p opened number ns s.counter)
            (sym (delete_node-keeps p editor true n s.board (ap not e)).0) t
      | inr e ↦
          subst (λ ns. Tidy p opened number ns s.counter)
            (sym (delete_node-removes p editor n s.board e).nodes_left)
            (Tidy-others p opened number numbering s.board.nodes (key n.id) s.counter t)
    ]

    event_preserves :
        (s q : Workspace S) → EditorEvent p opened number editor change s q → IsTidy s → IsTidy q
    unfolding component_info_update drop_cartridge drop_group drop_group_node
    event_preserves _ _ (drops_cartridge name s) t =
        Tidy-cartridge p opened number numbering name s t
    event_preserves _ _ (drops_group g s here d) t = Tidy-group p opened number numbering g s d t
    event_preserves _ _ (drops_node s here) t = Tidy-group_node p opened number numbering s t
    event_preserves _ _ (opens i n s at_i) t =
        let (b, c) = opened_board editor n s in IsTidy-same s (open_form p opened editor n s) b c t
    event_preserves _ _ (edits old new s e) t = t
    event_preserves _ _ (updates s q h) t = IsTidy-update s.form s q h t
    event_preserves _ _ (deletes i n sure s at_i) t = Tidy-delete_node sure n s t
    event_preserves _ _ (connects plumb s allowed) t = t

    pub events_preserve :
        (s q : Workspace S) → EditorEvents p opened number editor change s q → IsTidy s → IsTidy q
    events_preserve _ _ (rest s) t = t
    events_preserve _ _ (next s r q before last) t =
        event_preserves r q last (events_preserve s r before t)

  base_alone :
      (x : Text) → mem x (base_id editor ∷ []) ≡ true → before_dash x ≡ before_dash (base_id editor)
  unfolding mem
  base_alone x m = ap before_dash (text_eq_sound x (base_id editor) (ground (arith, m)))

  pub starts-IsTidy :
      (numbering : IsNumbering number) (s : Workspace S)
      → ((k : ℕ) → text_eq (before_dash (base_id editor)) (number k) ≡ false)
      → node_ids s.board.nodes ≡ base_id editor ∷ []
      → IsTidy numbering s
  unfolding distinct mem
  starts-IsTidy numbering s base start = record {
    ids_distinct = ap distinct start;
    ids_old = λ k x l m.
        ap (λ y. text_eq y (number k)) (base_alone x (ap (mem x) (sym start) ∙ m)) ∙ base k;
  }

  -- In both editors, from a page with the base node alone, and after any sequence of events, no two
  -- nodes have the same id, provided that the text of a number has no dash and is not the first part
  -- of the base node's id, that different numbers have different texts, and that no group that is drawn
  -- gives two of its own nodes the same id.
  pub ids_stay_distinct :
      (numbering : IsNumbering number) (s q : Workspace S)
      → ((k : ℕ) → text_eq (before_dash (base_id editor)) (number k) ≡ false)
      → node_ids s.board.nodes ≡ base_id editor ∷ []
      → EditorEvents p opened number editor change s q
      → distinct (node_ids q.board.nodes) ≡ true
  ids_stay_distinct numbering s q base start events =
      (events_preserve numbering s q events (starts-IsTidy numbering s base start)).ids_distinct
