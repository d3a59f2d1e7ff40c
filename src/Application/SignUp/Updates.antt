-- ===== src/Application/SignUp/Updates.antt =====
-- What the button Update writes.
use product_private_paas.Common.{
  Text, text_eq, text_eq_iff, text_eq_refl, mem, ◌≡◌, refl, ap, ◌∙◌, true, false, some, List, [],
  ◌∷◌, arith, if◌then◌else◌,
}
use product_private_paas.Json.{Json}
use product_private_paas.Export.{Result, ok, ◌>>=◌}
use product_private_paas.Application.{AppNode}
use product_private_paas.Application.SignUp.{
  SignUp, is_cartridge, store_at, generated, tab_data, click_node, update, update_with, set_alias,
  start_value,
}
use product_private_paas.Whiteboard.Plumbing.{JsPlumb}

abbrev pub ids : List AppNode → List Text
ids [] = []
ids (n ∷ ns) = n.id ∷ ids ns

pub ids-store_at : (id : Text) (v : Json) (ns : List AppNode) → ids (store_at id v ns) ≡ ids ns
unfolding store_at
ids-store_at id v [] = refl
ids-store_at id v (n ∷ ns) = ground (arith, ids-store_at id v ns)

-- The node of the id has the value, and all others keep theirs.
pub generated-store_at :
    (k id : Text) (v : Json) (ns : List AppNode)
    → mem id (ids ns) ≡ true
    → generated k (store_at id v ns) ≡ (if text_eq k id then some v else generated k ns)
unfolding store_at generated mem
generated-store_at k id v [] h = cc h
generated-store_at k id v (n ∷ ns) h = ground (
  arith,
  h,
  text_eq_iff k id,
  text_eq_iff k n.id,
  text_eq_iff id n.id,
  generated-store_at k id v ns,
)

module _ {S : Type 0} (p : JsPlumb S) (opened : Json → Json) where
  -- The value that the form of a cartridge starts with.
  abbrev pub shown : AppNode → SignUp S → Json
  shown n s = opened (start_value n.data_generated (set_alias n.data_calias s.default))

  -- The page after a click on a cartridge.
  abbrev pub opened_for : AppNode → SignUp S → SignUp S
  opened_for c s = record s {
    details_shown = true;
    block_id = some c.id;
    default = set_alias c.data_calias s.default;
    editor = some (shown c s);
  }

  pub click_node-cartridge :
      (c : AppNode) (s : SignUp S)
      → is_cartridge c.data_type ≡ true
      → click_node p opened c s ≡ opened_for c s
  unfolding click_node tab_data
  click_node-cartridge c s h = rw h refl

  pub click_node-group :
      (g : AppNode) (s : SignUp S)
      → is_cartridge g.data_type ≡ false
      → click_node p opened g s ≡ record s { details_shown = true; block_id = some g.id }
  unfolding click_node tab_data
  click_node-group g s h = rw h refl

  -- A click on a cartridge, Update, a click on another node, and Update again.
  abbrev pub click_twice : AppNode → AppNode → SignUp S → Result (SignUp S)
  click_twice c g s =
      update p opened (click_node p opened c s) >>= λ r. update p opened (click_node p opened g r)

  -- The page then.
  abbrev pub twice : AppNode → AppNode → SignUp S → SignUp S
  twice c g s = record (opened_for c s) {
    block_id = some g.id;
    board = record s.board {
      nodes = store_at g.id (shown c s) (store_at c.id (shown c s) s.board.nodes);
    };
  }

  click_twice-twice :
      (c g : AppNode) (s : SignUp S)
      → is_cartridge c.data_type ≡ true
      → is_cartridge g.data_type ≡ false
      → click_twice c g s ≡ ok (twice c g s)
  unfolding update update_with
  click_twice-twice c g s hc hg =
      let first : SignUp S = record (opened_for c s) {
        board = record s.board { nodes = store_at c.id (shown c s) s.board.nodes };
      } in
      ap (λ t. update p opened t >>= λ r. update p opened (click_node p opened g r))
        (click_node-cartridge c s hc)
      ∙ ap (λ t. update p opened t) (click_node-group g first hg)

  -- A click on a cartridge, Update, a click on another node that is no cartridge, and Update again:
  -- both nodes get the value of the cartridge's form.
  pub update_repeats :
      (c g : AppNode) (s : SignUp S)
      → is_cartridge c.data_type ≡ true
      → is_cartridge g.data_type ≡ false
      → text_eq c.id g.id ≡ false
      → mem c.id (ids s.board.nodes) ≡ true
      → mem g.id (ids s.board.nodes) ≡ true
      → (q : SignUp S) × (click_twice c g s ≡ ok q)
        × (generated c.id q.board.nodes ≡ some (shown c s))
        × (generated g.id q.board.nodes ≡ some (shown c s))
  update_repeats c g s hc hg ne mc mg =
      let v : Json = shown c s in
      let ns : List AppNode = store_at c.id v s.board.nodes in
      let mg' : mem g.id (ids ns) ≡ true = ap (mem g.id) (ids-store_at c.id v s.board.nodes) ∙ mg in
      (
        twice c g s,
        click_twice-twice c g s hc hg,
        generated-store_at c.id g.id v ns mg'
            ∙ ap (λ b. if b then some v else generated c.id ns) ne
            ∙ generated-store_at c.id c.id v s.board.nodes mc
            ∙ ap (λ b. if b then some v else generated c.id s.board.nodes) (text_eq_refl c.id),
        generated-store_at g.id g.id v ns mg'
            ∙ ap (λ b. if b then some v else generated g.id ns) (text_eq_refl g.id),
      )
