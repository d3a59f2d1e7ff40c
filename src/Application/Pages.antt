-- ===== src/Application/Pages.antt =====
-- The nodes of the four pages, and what each page draws first.
use product_private_paas.Common.{ℕ, zero, suc, Text, codes, true, false, none, some, ◌≡◌, refl, ap}
use product_private_paas.Export.{DataType}
use product_private_paas.Application.{
  Application, AppNode, Look, AppBoard, exclamation, add_application,
}
use product_private_paas.Whiteboard.Plumbing.{JsPlumb}

-- A node with an id and a text alone.
abbrev plain : Text → Text → AppNode
plain id name = record {
  id = id;
  data_type = none;
  data_ctype = none;
  data_calias = none;
  data_generated = none;
  title = name;
  text = name;
  sign = none;
  is_application = false;
  input_false = true;
}

abbrev typed_group : Text → Text → AppNode
typed_group id name = record (plain id name) {
  data_type = some DataType.group;
  data_ctype = some name;
}

abbrev signed : AppNode → AppNode
signed n = record n { sign = some exclamation }

abbrev pub deploy_look : Look
deploy_look = record {
  root_node = λ id name. signed (record (typed_group id name) { is_application = true });
  cartridge_node = λ id c. signed (plain id c.type);
  group_node = λ id name. signed (typed_group id name);
}

abbrev pub sign_up_look : Look
sign_up_look = record {
  root_node = λ id name. typed_group id name;
  cartridge_node = λ id c. signed (record (plain id c.type) {
    data_type = some DataType.cartridge;
    data_calias = some c.alias;
  });
  group_node = λ id name. typed_group id name;
}

abbrev pub view_look : Look
view_look = record {
  root_node = λ id name. signed (typed_group id name);
  cartridge_node = λ id c. signed (plain id c.type);
  group_node = λ id name. signed (typed_group id name);
}

abbrev pub topology_look : Look
topology_look = record {
  root_node = λ id name. record (typed_group id name) { is_application = true };
  cartridge_node = λ id c. plain id c.type;
  group_node = λ id name. typed_group id name;
}

-- The pages that show an application.
pub data AppPage : Type 0 where
  deploy_page sign_up_page view_page topology_page : AppPage

abbrev pub look_of : AppPage → Look
look_of deploy_page = deploy_look
look_of sign_up_page = sign_up_look
look_of view_page = view_look
look_of topology_page = topology_look

module _ {S : Type 0} (p : JsPlumb S) where
  -- The pages draw with the counter 0, which none of them changes.
  unfoldable pub draw_deploy : Application → AppBoard S → AppBoard S
  unfolding add_application
  draw_deploy app b = add_application p deploy_look (codes "0") app b

  unfoldable pub draw_sign_up : Application → AppBoard S → AppBoard S
  unfolding add_application
  draw_sign_up app b = add_application p sign_up_look (codes "0") app b

  unfoldable pub draw_view : Application → AppBoard S → AppBoard S
  unfolding add_application
  draw_view app b = add_application p view_look (codes "0") app b

  unfoldable pub draw_topology : Application → AppBoard S → AppBoard S
  unfolding add_application
  draw_topology app b = add_application p topology_look (codes "0") app b

  unfoldable pub draw : AppPage → Application → AppBoard S → AppBoard S
  unfolding draw_deploy draw_sign_up draw_view draw_topology
  draw deploy_page app b = draw_deploy app b
  draw sign_up_page app b = draw_sign_up app b
  draw view_page app b = draw_view app b
  draw topology_page app b = draw_topology app b

  -- The tab of the topology page, with `initapp`: only its first showing draws.
  unfoldable pub show_application : Application → ℕ × AppBoard S → ℕ × AppBoard S
  unfolding draw_topology
  show_application app (zero, b) = (suc zero, draw_topology app b)
  show_application app (suc n, b) = (suc n, b)

  unfoldable pub show_times : ℕ → Application → ℕ × AppBoard S → ℕ × AppBoard S
  unfolding show_application
  show_times zero app s = s
  show_times (suc n) app s = show_application app (show_times n app s)

  -- However often the tab of the topology page is shown, at least once, the application is drawn once.
  pub show_application_once :
      (n : ℕ) (app : Application) (b : AppBoard S)
      → show_times (suc n) app (0, b) ≡ (1, draw_topology app b)
  unfolding show_times show_application
  show_application_once zero app b = refl
  show_application_once (suc n) app b = ap (show_application app) (show_application_once n app b)
