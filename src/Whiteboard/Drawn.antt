-- ===== src/Whiteboard/Drawn.antt =====
-- What `addJsplumbGroup` draws.
use product_private_paas.Common.{Text, sym, none, some, List, [], ◌∷◌, subst}
use product_private_paas.GroupJson.{
  Group, Props, Groups, group, no_props, cartridges_prop, groups_prop, other_prop, no_groups,
  add_group,
}
use product_private_paas.Forest.{Row}
use product_private_paas.Forest.Layout.{flatten, flatten_all, join}
use product_private_paas.Forest.Trees.{Roses}
use product_private_paas.GroupTree.{NodeType, groups, cartridges}
use product_private_paas.GroupTree.Preview.{
  document_tree, parts, leaves, leaves_of, groups_of, group_tree, group_trees,
}
use product_private_paas.Whiteboard.{
  Board, dash, gen_jsplumb_cartridge, gen_jsplumb_groups, gen_jsplumb_group, gen_own_cartridges,
  gen_own_groups, gen_props, add_jsplumb_group,
}
use product_private_paas.Whiteboard.Plumbing.{JsPlumb}
use product_private_paas.Whiteboard.Paths.{Shape, paths, paths_all, rows-join, dash_assoc}
use product_private_paas.Whiteboard.Draws.{
  Draws, Draws-nil, Draws-append, Draws-cartridge, Draws-group, Draws-root,
}

module _ {S : Type 0} (p : JsPlumb S) where
  module _ (counter : Text) where
    -- The rows below the node of a path.
    abbrev below : Text → Roses NodeType → List (Row (Shape NodeType))
    below name ts = flatten_all (some (dash counter name)) (paths_all (dash counter name) ts)

    cartridges_drawn :
        (cs : List Text) (name : Text) (b : Board S)
        → Draws p
            (below name (leaves cs))
            b
            (gen_jsplumb_cartridge p counter cs (dash counter name) name b)
    unfolding gen_jsplumb_cartridge leaves flatten paths
    cartridges_drawn [] name b = Draws-nil p b
    cartridges_drawn (c ∷ cs) name b =
        subst
          (λ id.
            Draws p
              (record {
                name = id;
                parent = some (dash counter name);
                payload = record { kind = cartridges; name = c };
              }
                ∷ below name (leaves cs))
              b (gen_jsplumb_cartridge p counter (c ∷ cs) (dash counter name) name b))
          (dash_assoc counter name c)
          (Draws-append p _ (below name (leaves cs)) b _ _
            (Draws-cartridge p (dash counter (dash name c)) c (dash counter name) b)
            (cartridges_drawn cs name _))

    mutual
      unfolding gen_jsplumb_groups group_trees flatten paths

      groups_drawn :
          (gs : Groups) (name : Text) (b : Board S)
          → Draws p
              (below name (group_trees gs))
              b
              (gen_jsplumb_groups p counter gs (dash counter name) name b)
      groups_drawn no_groups name b = Draws-nil p b
      groups_drawn (add_group g gs) name b =
          Draws-append p _ _ b _ _ (one_group_drawn g name b) (groups_drawn gs name _)

      one_group_drawn :
          (g : Group) (name : Text) (b : Board S)
          → Draws p
              (flatten (some (dash counter name)) (paths (dash counter name) (group_tree g)))
              b
              (gen_jsplumb_group p counter g (dash counter name) name b)
      one_group_drawn (group n ps) name b =
          subst
            (λ id.
              Draws p
                (record {
                  name = id;
                  parent = some (dash counter name);
                  payload = record { kind = groups; name = n };
                }
                  ∷ flatten_all (some id) (paths_all id (join (leaves_of ps) (groups_of ps))))
                b (gen_jsplumb_group p counter (group n ps) (dash counter name) name b))
            (dash_assoc counter name n)
            (subst
              (λ rows.
                Draws p
                  (record {
                    name = dash counter (dash name n);
                    parent = some (dash counter name);
                    payload = record { kind = groups; name = n };
                  }
                    ∷ rows)
                  b (gen_jsplumb_group p counter (group n ps) (dash counter name) name b))
              (sym (rows-join (dash counter (dash name n)) (leaves_of ps) (groups_of ps)))
              (Draws-append p _ _ b _ _
                (Draws-group p (dash counter (dash name n)) n (dash counter name) b)
                (Draws-append p _ _ _ _ _ (own_cartridges_drawn ps (dash name n) _)
                  (own_groups_drawn ps (dash name n) _))))

      own_cartridges_drawn :
          (ps : Props) (name : Text) (b : Board S)
          → Draws p
              (below name (leaves_of ps))
              b
              (gen_own_cartridges p counter ps (dash counter name) name b)
      own_cartridges_drawn no_props name b = Draws-nil p b
      own_cartridges_drawn (cartridges_prop cs ps) name b = cartridges_drawn cs name b
      own_cartridges_drawn (groups_prop gs ps) name b = own_cartridges_drawn ps name b
      own_cartridges_drawn (other_prop k ps) name b = own_cartridges_drawn ps name b

      own_groups_drawn :
          (ps : Props) (name : Text) (b : Board S)
          → Draws p
              (below name (groups_of ps))
              b
              (gen_own_groups p counter ps (dash counter name) name b)
      own_groups_drawn no_props name b = Draws-nil p b
      own_groups_drawn (cartridges_prop cs ps) name b = own_groups_drawn ps name b
      own_groups_drawn (groups_prop gs ps) name b = groups_drawn gs name b
      own_groups_drawn (other_prop k ps) name b = own_groups_drawn ps name b

    props_drawn :
        (ps : Props) (name : Text) (b : Board S)
        → Draws p (below name (parts ps)) b (gen_props p counter ps (dash counter name) name b)
    unfolding gen_props parts flatten paths
    props_drawn no_props name b = Draws-nil p b
    props_drawn (cartridges_prop cs ps) name b =
        subst
          (λ rows.
            Draws p rows b (gen_props p counter (cartridges_prop cs ps) (dash counter name) name b))
          (sym (rows-join (dash counter name) (leaves cs) (parts ps)))
          (Draws-append p _ _ b _ _ (cartridges_drawn cs name b) (props_drawn ps name _))
    props_drawn (groups_prop gs ps) name b =
        subst
          (λ rows.
            Draws p rows b (gen_props p counter (groups_prop gs ps) (dash counter name) name b))
          (sym (rows-join (dash counter name) (group_trees gs) (parts ps)))
          (Draws-append p _ _ b _ _ (groups_drawn gs name b) (props_drawn ps name _))
    props_drawn (other_prop k ps) name b = props_drawn ps name b

  -- Drawing a group adds to the board the document's tree, the same that the preview shows: one node
  -- for each node of it, in preorder, with the counter and the names on the way to it as its id, and
  -- one connection to each node but the root's, from its parent, and on each node the endpoints that
  -- nodes of its kind have below a parent or without one.
  pub add_jsplumb_group-Draws :
      (g : Group) (counter : Text) (b : Board S)
      → Draws p (flatten none (paths counter (document_tree g))) b (add_jsplumb_group p g counter b)
  unfolding add_jsplumb_group document_tree flatten paths
  add_jsplumb_group-Draws (group n ps) counter b =
      Draws-append p _ _ b _ _ (Draws-root p (dash counter n) n b) (props_drawn counter ps n _)
