-- ===== src/Application/Deploy.antt =====
-- The deploy page, applications-deploy.js: clicks on nodes and the button Deploy.
use product_private_paas.Common.{
  Text, codes, text_eq, text_eq_iff, mem, mem-append, ◌≡◌, Bool, false, List, [], ◌∷◌, ◌++◌, ◌&&◌,
  ◌||◌, arith, if◌then◌else◌,
}
use product_private_paas.Export.{Connection}
use product_private_paas.Application.{AppNode, AppBoard}
use product_private_paas.Application.SignUp.{Answer, Feedback, receive}
use product_private_paas.Whiteboard.Plumbing.{JsPlumb}

pub record DeployRequest : Type 0 where
  pub form_payload : Text
  pub formtype : Text
  pub application_id : Text

-- The page: the ids of the nodes with the class `stepnode-disable`, and the open tab.
pub record Deploy (S : Type 0) : Type 0 where
  pub board : AppBoard S
  pub disabled : List Text
  pub tab : Text
  pub requests : List DeployRequest
  pub feedback : Feedback

-- One round of the loop of `treeActivation`: the other end of the connection, if one end is the node.
abbrev pub disable_end : Text → Connection → List Text
disable_end id c =
    if text_eq c.source_id id
    then c.target_id ∷ []
    else if text_eq c.target_id id
    then c.source_id ∷ []
    else []

unfoldable pub disable_ends : Text → List Connection → List Text → List Text
disable_ends id [] ds = ds
disable_ends id (c ∷ cs) ds = disable_ends id cs (ds ++ disable_end id c)

module _ {S : Type 0} (p : JsPlumb S) where
  unfoldable pub tree_activation : AppNode → Deploy S → Deploy S
  unfolding disable_ends
  tree_activation n s = record s {
    disabled = disable_ends n.id (p.get_connections s.board.plumb) s.disabled;
  }

  abbrev pub deploy_tab_data : AppNode → Deploy S → Deploy S
  deploy_tab_data n s = record s {
    tab = if n.is_application then codes "general" else codes "components";
  }

  unfoldable pub click_deploy_node : AppNode → Deploy S → Deploy S
  unfolding tree_activation
  click_deploy_node n s = tree_activation n (deploy_tab_data n s)

  -- The button Deploy, up to the request. `policy` is the chosen policy, `id` the application's.
  unfoldable pub deploy : Text → Text → Deploy S → Deploy S
  deploy policy id s = record s {
    requests =
        s.requests
        ++ record { form_payload = policy; formtype = codes "deployments"; application_id = id }
          ∷ [];
    feedback = record s.feedback {
      button =
          codes
            "<span class=\"fw-stack fw-lg btn-action-ico\"><i class=\"fw fw-ring fw-stack-2x\"></i>"
          ++ codes "<i class=\"fw fw-add fw-stack-1x\"></i></span>"
          ++ codes " <i class='fa fa-spinner fa-spin'></i> Deploying Application ";
    };
  }

  unfoldable pub deploy_answered : Answer → Deploy S → Deploy S
  unfolding receive
  deploy_answered a s = record s { feedback = receive (codes "Deploy Application") a s.feedback }

-- Does a connection lead from one of the two nodes to the other?
unfoldable pub adjacent : Text → Text → List Connection → Bool
adjacent id k [] = false
adjacent id k (c ∷ cs) =
    (text_eq c.source_id id && text_eq k c.target_id)
    || (text_eq c.target_id id && text_eq k c.source_id)
    || adjacent id k cs

mem-disable_end :
    (id k : Text) (c : Connection)
    → text_eq k id ≡ false
    → mem k (disable_end id c) ≡ (
        (text_eq c.source_id id && text_eq k c.target_id)
        || (text_eq c.target_id id && text_eq k c.source_id))
unfolding mem
mem-disable_end id k c h = ground (
  arith,
  h,
  text_eq_iff k id,
  text_eq_iff c.source_id id,
  text_eq_iff c.target_id id,
  text_eq_iff k c.target_id,
  text_eq_iff k c.source_id,
)

mem-disable_ends :
    (id k : Text) (cs : List Connection) (ds : List Text)
    → text_eq k id ≡ false
    → mem k (disable_ends id cs ds) ≡ (mem k ds || adjacent id k cs)
unfolding disable_ends adjacent
mem-disable_ends id k [] ds h = ground arith
mem-disable_ends id k (c ∷ cs) ds h = ground (
  arith,
  mem-disable_ends id k cs (ds ++ disable_end id c) h,
  mem-append k ds (disable_end id c),
  mem-disable_end id k c h,
)

-- A click on a node disables exactly the other nodes that a connection joins with it, and those that
-- were disabled before stay so.
pub click_deploy_node-disables :
    {S : Type 0} (p : JsPlumb S) (n : AppNode) (s : Deploy S) (k : Text)
    → text_eq k n.id ≡ false
    → mem k (click_deploy_node p n s).disabled
      ≡ (mem k s.disabled || adjacent n.id k (p.get_connections s.board.plumb))
unfolding click_deploy_node tree_activation
click_deploy_node-disables p n s k h =
    mem-disable_ends n.id k (p.get_connections s.board.plumb) s.disabled h
