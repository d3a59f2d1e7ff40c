-- ===== src/GroupJson.antt =====
-- The JSON document of a cartridge group, as the console's pages receive it: a name, and further
-- properties in the order of the document. A group's `cartridges` are cartridge types, its `groups`
-- are groups again.
use product_private_paas.Common.{Text, List}

mutual
  pub data Group : Type 0 where
    group : Text → Props → Group

  pub data Props : Type 0 where
    no_props : Props
    cartridges_prop : List Text → Props → Props
    groups_prop : Groups → Props → Props
    other_prop : Text → Props → Props

  pub data Groups : Type 0 where
    no_groups : Groups
    add_group : Group → Groups → Groups
