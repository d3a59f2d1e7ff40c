-- ===== src/Forms/Reach/Events.antt =====
-- Each event in the two editors, and the connections of the page.
use product_private_paas.Common.{
  List, ℕ, Text, text_eq, ◌≡◌, refl, sym, ap, subst, Bool, true, false, not, Option, none, some,
  Bool-cases, inl, inr, if◌then◌else◌, ◌&&◌, ◌<◌, count,
}
use product_private_paas.Json.{Fields}
use product_private_paas.Export.{ok, Connection}
use product_private_paas.Forms.{
  Workspace, Schema, fill_in, open_form, clicked_node, enables, block_type, component_info_update,
  update_form,
}
use product_private_paas.Forms.Clicks.{node_ids}
use product_private_paas.Forms.Distinct.{
  IsTidy, open_form_board, group_form_board, fill_in-ids, events_preserve,
}
use product_private_paas.Forms.Events.{
  IsNumbering, EditorEvent, EditorEvents, drops_cartridge, drops_group, drops_node, opens, edits,
  updates, deletes, connects, rest, next,
}
use product_private_paas.Forms.Linked.{Linked, Linked-transport}
use product_private_paas.Forms.Linked.Dragged.{Linked-attach, Linked-detach, mem-elements}
use product_private_paas.Forms.Linked.Left.{Linked-others}
use product_private_paas.Forms.Reach.{
  IsLinked, IsLinked-cartridge, IsLinked-group, IsLinked-group_node,
}
use product_private_paas.Whiteboard.{Node, Board}
use product_private_paas.Whiteboard.Drags.{Drag, attaches, detaches}
use product_private_paas.Whiteboard.Keys.{key, before_dash}
use product_private_paas.Whiteboard.Plumbing.{JsPlumb}
use product_private_paas.Whiteboard.Removal.{
  Editor, application_editor, group_editor, base_id, delete_node, delete_node-removes,
  delete_node-keeps,
}
use product_private_paas.Whiteboard.Targets.{targets}

module _ {S : Type 0} (p : JsPlumb S) (opened : Schema → Fields → Fields) (number : ℕ → Text)
    (editor : Editor) (numbering : IsNumbering number)
    (other : (k : ℕ) → text_eq (before_dash (base_id editor)) (number k) ≡ false) where
  abbrev IsSound : Board S → Type 0
  IsSound b = IsLinked p opened number (base_id editor) b

  IsSound-same :
      (b b' : Board S)
      → node_ids b'.nodes ≡ node_ids b.nodes
      → p.get_connections b'.plumb ≡ p.get_connections b.plumb
      → b'.ends ≡ b.ends
      → IsSound b
      → IsSound b'
  IsSound-same b b' n c e l =
      Linked-transport (base_id editor) (node_ids b.nodes) (node_ids b'.nodes)
        (p.get_connections b.plumb) (p.get_connections b'.plumb) b.ends b'.ends (sym n) (sym c)
        (sym e) l

  -- Other connections on the same page.
  rewired :
      (b : Board S) (cs ds : List Connection)
      → cs ≡ ds
      → Linked (base_id editor) (node_ids b.nodes) cs b.ends
      → Linked (base_id editor) (node_ids b.nodes) ds b.ends
  rewired b cs ds e l =
      Linked-transport (base_id editor) (node_ids b.nodes) (node_ids b.nodes) cs ds b.ends b.ends
        refl e refl l

  IsSound-Drag :
      (plumb : S) (b : Board S) → Drag p b plumb → IsSound b → IsSound (record b { plumb = plumb })
  IsSound-Drag plumb b (attaches xs ys i j from to was at_i at_j source target few now) l =
      rewired b _ _ (sym now) (
        Linked-attach (base_id editor) (node_ids b.nodes) xs ys _ b.ends j to at_j target refl
          (mem-elements b.ends i from at_i)
          (subst (λ cs. count to.element (targets cs) < to.options.max_connections) was few)
          (rewired b _ _ was l))
  IsSound-Drag plumb b (detaches xs ys c was now) l =
      rewired b _ _ (sym now)
        (Linked-detach (base_id editor) (node_ids b.nodes) xs ys c b.ends (rewired b _ _ was l))

  IsSound-kept :
      (sure : Bool) (n : Node) (b : Board S)
      → (sure && not (text_eq n.id (base_id editor))) ≡ false
      → IsSound b
      → IsSound (delete_node p editor sure n b)
  IsSound-kept sure n b h l =
      let (ns, plumb, es) = delete_node-keeps p editor sure n b h in
      IsSound-same b (delete_node p editor sure n b) (ap node_ids ns) (ap p.get_connections plumb)
        es l

  IsSound-delete_node :
      (sure : Bool) (n : Node) (b : Board S) → IsSound b → IsSound (delete_node p editor sure n b)
  IsSound-delete_node false n b l = IsSound-kept false n b refl l
  IsSound-delete_node true n b l = elim (Bool-cases (text_eq n.id (base_id editor))) [
    | inl e ↦ IsSound-kept true n b (ap not e) l
    | inr e ↦
        let r = delete_node-removes p editor n b e in
        Linked-transport (base_id editor) _ _ _ _ _ _ (ap node_ids (sym r.nodes_left))
          (sym r.connections_left) (sym r.endpoints_left)
          (Linked-others (base_id editor) (key n.id) b.nodes (p.get_connections b.plumb) b.ends l)
  ]

  IsSound-update :
      (form : Option Fields) (s q : Workspace S)
      → update_form p opened editor form s ≡ ok q
      → IsSound s.board
      → IsSound q.board
  unfolding update_form
  IsSound-update none s q h l = cc h
  IsSound-update (some v) s q h l =
      let after : Workspace S = record s {
        board = record s.board { nodes = fill_in s.block_id v s.board.nodes };
        save_enabled = if enables p opened editor s then true else s.save_enabled;
      } in
      let same : after ≡ q = cc h in
      subst (λ (t : Workspace S). IsSound t.board) same
        (IsSound-same s.board after.board
          (fill_in-ids p opened number editor (Drag p) numbering s.block_id v s.board.nodes) refl
          refl l)

  opened-IsSound :
      (e : Editor) (n : Node) (s : Workspace S)
      → IsSound s.board
      → IsSound (open_form p opened e n s).board
  unfolding open_form
  opened-IsSound application_editor n s l =
      subst IsSound
        (sym
          (open_form_board p opened number editor (Drag p) numbering
            (block_type application_editor n) n (clicked_node p opened application_editor n s)).0)
        l
  opened-IsSound group_editor n s l =
      subst IsSound
        (sym
          (group_form_board p opened number editor (Drag p) numbering (block_type group_editor n) n
            (clicked_node p opened group_editor n s)).0)
        l

  IsSound-event :
      (s q : Workspace S)
      → EditorEvent p opened number editor (Drag p) s q
      → IsTidy p opened number editor (Drag p) numbering s
      → IsSound s.board
      → IsSound q.board
  unfolding component_info_update
  IsSound-event _ _ (drops_cartridge name s) t l =
      IsLinked-cartridge p opened number (base_id editor) numbering other name s t l
  IsSound-event _ _ (drops_group g s here d) t l =
      IsLinked-group p opened number (base_id editor) numbering other g s d t l
  IsSound-event _ _ (drops_node s here) t l =
      IsLinked-group_node p opened number (base_id editor) numbering other s t l
  IsSound-event _ _ (opens i n s at_i) t l = opened-IsSound editor n s l
  IsSound-event _ _ (edits old new s e) t l = l
  IsSound-event _ _ (updates s q h) t l = IsSound-update s.form s q h l
  IsSound-event _ _ (deletes i n sure s at_i) t l = IsSound-delete_node sure n s.board l
  IsSound-event _ _ (connects plumb s d) t l = IsSound-Drag plumb s.board d l

  pub IsSound-events :
      (s q : Workspace S)
      → EditorEvents p opened number editor (Drag p) s q
      → IsTidy p opened number editor (Drag p) numbering s
      → IsSound s.board
      → IsSound q.board
  IsSound-events _ _ (rest s) t l = l
  IsSound-events _ _ (next s r q before last) t l =
      IsSound-event r q last
        (events_preserve p opened number editor (Drag p) numbering s r before t)
        (IsSound-events s r before t l)
