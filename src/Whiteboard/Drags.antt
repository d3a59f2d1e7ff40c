-- ===== src/Whiteboard/Drags.antt =====
-- What a user can do to the connections by hand, as far as jsPlumb lets the endpoints be used.
use product_private_paas.Common.{ℕ, ◌<◌, ◌≡◌, true, some, List, ◌∷◌, ◌++◌, count, get_elem?}
use product_private_paas.Export.{Connection}
use product_private_paas.Whiteboard.{Board}
use product_private_paas.Whiteboard.Plumbing.{JsPlumb, End}
use product_private_paas.Whiteboard.Targets.{targets}

-- A connection is drawn from an endpoint with `isSource` to one with `isTarget` on which fewer than
-- `maxConnections` end, or taken off. An element with an endpoint that is a target has no other that
-- connections end at. Where jsPlumb puts a new connection among the others is left open.
pub data Drag {S : Type 0} (p : JsPlumb S) (b : Board S) (plumb : S) : Type 0 where
  attaches :
      (xs ys : List Connection) (i j : ℕ) (from to : End)
      → p.get_connections b.plumb ≡ xs ++ ys
      → get_elem? b.ends i ≡ some from
      → get_elem? b.ends j ≡ some to
      → from.options.is_source ≡ true
      → to.options.is_target ≡ true
      → count to.element (targets (p.get_connections b.plumb)) < to.options.max_connections
      → p.get_connections plumb
        ≡ xs ++ record { source_id = from.element; target_id = to.element } ∷ ys
      → Drag p b plumb
  detaches :
      (xs ys : List Connection) (c : Connection)
      → p.get_connections b.plumb ≡ xs ++ c ∷ ys
      → p.get_connections plumb ≡ xs ++ ys
      → Drag p b plumb
