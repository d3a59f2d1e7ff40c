-- ===== src/Application/Drawn.antt =====
-- What `addJsplumbGroup` draws of an application.
use product_private_paas.Common.{
  Text, codes, ◌≡◌, refl, sym, ap, ◌∙◌, none, some, List, [], ◌∷◌, ◌++◌, map, append_assoc,
  append-nil, subst,
}
use mathlib.Core.List.{map-append}
use product_private_paas.Forest.{Row}
use product_private_paas.Forest.Layout.{flatten, flatten_all, join}
use product_private_paas.Forest.Trees.{Rose, Roses, node, nil, cons}
use product_private_paas.Whiteboard.{dash}
use product_private_paas.Whiteboard.Paths.{
  Shape, paths, paths_all, links_of, links_of-append, rows-join, dash_assoc,
}
use product_private_paas.Whiteboard.Plumbing.{top_center, bottom_center, JsPlumb}
use product_private_paas.Application.{
  AppCartridge, AppGroup, AppGroups, app_group, no_app_groups, add_app_group, Application, AppNode,
  Look, AppBoard, put_node, put_end, put_link, draw_app_group, gen_app_cartridges, gen_app_groups,
  gen_app_group, add_application,
}
use product_private_paas.Application.Pages.{
  AppPage, deploy_page, sign_up_page, view_page, topology_page, look_of, draw, draw_deploy,
  draw_sign_up, draw_view, draw_topology,
}

-- What a node of an application's tree stands for.
pub data Part : Type 0 where
  whole nested : Part
  leaf : AppCartridge → Part

unfoldable leaves : List AppCartridge → Roses Part
leaves [] = nil
leaves (c ∷ cs) = cons (node c.type (leaf c) nil) (leaves cs)

unfoldable mutual
  unfolding leaves join

  group_tree : AppGroup → Rose Part
  group_tree (app_group n cs gs) = node n nested (join (leaves cs) (group_trees gs))

  group_trees : AppGroups → Roses Part
  group_trees no_app_groups = nil
  group_trees (add_app_group g gs) = cons (group_tree g) (group_trees gs)

-- The tree of the document: below each node its cartridges and then its groups.
unfoldable pub application_tree : Application → Rose Part
unfolding group_trees leaves join
application_tree app = node app.alias whole (join (leaves app.cartridges) (group_trees app.groups))

abbrev pub shape_node : Look → Text → Text → Part → AppNode
shape_node look id name whole = look.root_node id name
shape_node look id name nested = look.group_node id name
shape_node look id name (leaf c) = look.cartridge_node id c

-- The node of a row.
abbrev pub look_node : Look → Row (Shape Part) → AppNode
look_node look r = shape_node look r.name r.payload.name r.payload.kind

module _ {S : Type 0} (p : JsPlumb S) (look : Look) where
  -- `b'` is `b` with the rows drawn.
  pub record AppDraws (rows : List (Row (Shape Part))) (b b' : AppBoard S) : Type 0 where
    pub nodes_drawn : b'.nodes ≡ b.nodes ++ map (look_node look) rows
    pub links_drawn : p.get_connections b'.plumb ≡ p.get_connections b.plumb ++ links_of rows

  AppDraws-nil : (b : AppBoard S) → AppDraws [] b b
  unfolding links_of
  AppDraws-nil b = record {
    nodes_drawn = sym (append-nil b.nodes);
    links_drawn = sym (append-nil (p.get_connections b.plumb));
  }

  AppDraws-append :
      (xs ys : List (Row (Shape Part))) (a b c : AppBoard S)
      → AppDraws xs a b
      → AppDraws ys b c
      → AppDraws (xs ++ ys) a c
  AppDraws-append xs ys a b c f g = record {
    nodes_drawn =
        g.nodes_drawn
        ∙ ap (λ n. n ++ map (look_node look) ys) f.nodes_drawn
        ∙ append_assoc a.nodes (map (look_node look) xs) (map (look_node look) ys)
        ∙ ap (λ n. a.nodes ++ n) (sym (map-append (look_node look) xs ys));
    links_drawn =
        g.links_drawn
        ∙ ap (λ n. n ++ links_of ys) f.links_drawn
        ∙ append_assoc (p.get_connections a.plumb) (links_of xs) (links_of ys)
        ∙ ap (λ n. p.get_connections a.plumb ++ n) (sym (links_of-append xs ys));
  }

  AppDraws-leaf :
      (id parent : Text) (c : AppCartridge) (b : AppBoard S)
      → AppDraws
          (record {
            name = id;
            parent = some parent;
            payload = record { kind = leaf c; name = c.type };
          }
            ∷ [])
          b
          (put_link p parent id (put_end p top_center id (put_node p (look.cartridge_node id c) b)))
  unfolding links_of
  AppDraws-leaf id parent c b = record {
    nodes_drawn = refl;
    links_drawn =
        p.get-connect parent id (p.add_endpoint id top_center b.plumb)
        ∙ ap (λ s. s ++ record { source_id = parent; target_id = id } ∷ [])
            (p.get-add_endpoint id top_center b.plumb);
  }

  AppDraws-group :
      (id n parent : Text) (b : AppBoard S)
      → AppDraws
          (record { name = id; parent = some parent; payload = record { kind = nested; name = n } }
            ∷ [])
          b
          (draw_app_group p look (codes "0") id n parent b)
  unfolding links_of
  AppDraws-group id n parent b = record {
    nodes_drawn = refl;
    links_drawn =
        p.get-connect parent id
          (p.add_endpoint id top_center (p.add_endpoint id bottom_center b.plumb))
        ∙ ap (λ s. s ++ record { source_id = parent; target_id = id } ∷ [])
            (p.get-add_endpoint id top_center (p.add_endpoint id bottom_center b.plumb)
              ∙ p.get-add_endpoint id bottom_center b.plumb);
  }

  AppDraws-root :
      (id n : Text) (b : AppBoard S)
      → AppDraws
          (record { name = id; parent = none; payload = record { kind = whole; name = n } } ∷ [])
          b
          (put_end p bottom_center id (put_node p (look.root_node id n) b))
  unfolding links_of
  AppDraws-root id n b = record {
    nodes_drawn = refl;
    links_drawn =
        p.get-add_endpoint id bottom_center b.plumb ∙ sym (append-nil (p.get_connections b.plumb));
  }

  module _ (counter : Text) where
    -- The rows below the node of a path.
    abbrev below : Text → Roses Part → List (Row (Shape Part))
    below name ts = flatten_all (some (dash counter name)) (paths_all (dash counter name) ts)

    leaves_drawn :
        (cs : List AppCartridge) (name : Text) (b : AppBoard S)
        → AppDraws
            (below name (leaves cs))
            b
            (gen_app_cartridges p look counter cs (dash counter name) name b)
    unfolding gen_app_cartridges leaves flatten paths
    leaves_drawn [] name b = AppDraws-nil b
    leaves_drawn (c ∷ cs) name b =
        subst
          (λ id.
            AppDraws
              (record {
                name = id;
                parent = some (dash counter name);
                payload = record { kind = leaf c; name = c.type };
              }
                ∷ below name (leaves cs))
              b (gen_app_cartridges p look counter (c ∷ cs) (dash counter name) name b))
          (dash_assoc counter name c.type)
          (AppDraws-append _ (below name (leaves cs)) b _ _
            (AppDraws-leaf (dash counter (dash name c.type)) (dash counter name) c b)
            (leaves_drawn cs name _))

    -- The cartridges and the groups of one node.
    abbrev parts_of : List AppCartridge → AppGroups → Roses Part
    parts_of cs gs = join (leaves cs) (group_trees gs)

    parts_drawn :
        (cs : List AppCartridge) (gs : AppGroups) (name : Text) (a b c : AppBoard S)
        → AppDraws (below name (leaves cs)) a b
        → AppDraws (below name (group_trees gs)) b c
        → AppDraws (below name (parts_of cs gs)) a c
    parts_drawn cs gs name a b c f g =
        subst (λ rows. AppDraws rows a c)
          (sym (rows-join (dash counter name) (leaves cs) (group_trees gs)))
          (AppDraws-append (below name (leaves cs)) (below name (group_trees gs)) a b c f g)

    mutual
      unfolding gen_app_groups group_trees flatten paths

      groups_drawn :
          (gs : AppGroups) (name : Text) (b : AppBoard S)
          → AppDraws
              (below name (group_trees gs))
              b
              (gen_app_groups p look counter gs (dash counter name) name b)
      groups_drawn no_app_groups name b = AppDraws-nil b
      groups_drawn (add_app_group g gs) name b =
          AppDraws-append _ _ b _ _ (one_group_drawn g name b) (groups_drawn gs name _)

      one_group_drawn :
          (g : AppGroup) (name : Text) (b : AppBoard S)
          → AppDraws
              (flatten (some (dash counter name)) (paths (dash counter name) (group_tree g)))
              b
              (gen_app_group p look counter g (dash counter name) name b)
      one_group_drawn (app_group n cs gs) name b =
          subst
            (λ id.
              AppDraws
                (record {
                  name = id;
                  parent = some (dash counter name);
                  payload = record { kind = nested; name = n };
                }
                  ∷ flatten_all (some id) (paths_all id (parts_of cs gs)))
                b (gen_app_group p look counter (app_group n cs gs) (dash counter name) name b))
            (dash_assoc counter name n)
            (AppDraws-append _ _ b _ _
              (AppDraws-group (dash counter (dash name n)) n (dash counter name) b)
              (parts_drawn cs gs (dash name n) _ _ _ (leaves_drawn cs (dash name n) _)
                (groups_drawn gs (dash name n) _)))

    -- Drawing an application adds to the page one node for each node of the document's tree, in
    -- preorder, with the counter and the names on the way to it as its id and with the attributes of
    -- the page, and one connection to each of them but the root, from its parent.
    pub add_application-AppDraws :
        (app : Application) (b : AppBoard S)
        → AppDraws
            (flatten none (paths counter (application_tree app)))
            b
            (add_application p look counter app b)
    unfolding add_application application_tree flatten paths
    add_application-AppDraws app b =
        AppDraws-append _ _ b _ _ (AppDraws-root (dash counter app.alias) app.alias b) (
          parts_drawn app.cartridges app.groups app.alias _ _ _
            (leaves_drawn app.cartridges app.alias _) (groups_drawn app.groups app.alias _))

-- On each of the four pages, drawing an application adds one node for each node of the document's
-- tree, in preorder, with 0 and the names on the way to it as its id and with the attributes of the
-- page, and one connection to each of them but the root, from its parent.
pub draw-AppDraws :
    {S : Type 0} (p : JsPlumb S) (page : AppPage) (app : Application) (b : AppBoard S)
    → AppDraws p
        (look_of page)
        (flatten none (paths (codes "0") (application_tree app)))
        b
        (draw p page app b)
unfolding draw draw_deploy draw_sign_up draw_view draw_topology
draw-AppDraws p deploy_page app b =
    add_application-AppDraws p (look_of deploy_page) (codes "0") app b
draw-AppDraws p sign_up_page app b =
    add_application-AppDraws p (look_of sign_up_page) (codes "0") app b
draw-AppDraws p view_page app b = add_application-AppDraws p (look_of view_page) (codes "0") app b
draw-AppDraws p topology_page app b =
    add_application-AppDraws p (look_of topology_page) (codes "0") app b
