-- ===== src/Lib.antt =====
-- The console of WSO2 Private PaaS
-- (components/org.wso2.ppaas.manager.console/console/themes/privatePaaS/js/custom) lets an operator draw
-- an application or a cartridge group on a whiteboard, and shows groups and running applications as
-- trees. The parts that compute something are modelled here, on the values that the pages hand around:
--
--  * Forest: the rows that a page builds are linked into a tree by the names of their parents
--    (`generateGroupPreview` of applications-editor.js, second half of `genTree` of
--    applications_topology.js). `data_map` is `dataMap`, `link_rows` the loop that fills `children` and
--    `treeData`, and `tree_of_rows` what d3 sees below `treeData[0]`.
--  * GroupJson, GroupTree: the rows of a cartridge group (`generateGroupTree` of applications-editor.js).
--    They go into Forest.
--  * Topology: the rows of a running application (`genTree` of applications_topology.js), with the
--    page's globals as the state `Page` that the loops pass on. The rows go into Forest.
--    Topology/Popover has the texts of `update` of the same file, which read a global again.
--  * Json, Export: the document that is written from the drawn connections (`generateJsplumbTree` of
--    applications-editor.js and `genGroupJSON` of applications_group_editor.js). `raw_tree` and
--    `group_raw_tree` read the connections, `hierarchy` is the two loops over `rawtree` and `nodes`,
--    Export/Cleanup is `traverse`, and Export/Assemble puts them together.
--  * Whiteboard: the nodes and the connections of the page (`addJsplumbCartridge` and `addJsplumbGroup` of
--    both editors) over an interface of jsPlumb, Whiteboard/Plumbing; Whiteboard/Removal is `deleteNode`.
--    The connections that Whiteboard draws are what Export reads. Whiteboard/Drags has what a user can do
--    to them by hand, by the options of the endpoints, and Whiteboard/Placing is `dagrePosition` over an
--    interface of dagre.
--  * Forms: the forms of the nodes in both editors: the click that opens a form (`open_form` is `tabData`),
--    the button Update, the double clicks that draw and the document that Save sends. A node that
--    Whiteboard draws is filled here, and Export reads it. Forms/Events has the sequences of events in the
--    two editors; the text of a number is a parameter there. Forms/Outcome joins Whiteboard, Forms and
--    Export: what Save does on the pages that the events lead to. Forms/Request has the request of Save, what
--    `generateJsplumbTree` does to the value of the application's form, which it shares with JSONEditor, and,
--    with the answers of Application, what the page does after it.
--  * Application: the pages that show an application (applications-deploy.js, applications-signup.js,
--    applications-view.js, applications_topology.js), each with its own copy of `addJsplumbGroup`, over
--    the same interface of jsPlumb. Application/SignUp is the form and the request of the sign-up page
--    and the server's answers to it, Application/Deploy the deploy page.
--  * Login: the log-in form (js/login/login.js beside js/custom), its handlers and the server's replies as
--    steps on the page; Login/Steps has the sequences of steps.
--  * Renderers: the nine renderers (renderers/ beside js), which choose a template, its partials and their
--    contexts from the data of a request.
--  * Theme: the registration of the partials and the helpers that read the session (theme.js). What the
--    renderers name is looked up in what Theme registers.
--  * Slides: the slide windows and menus when a page has loaded (js/custom.js). Slides/Tabs has the clicks
--    on the handles of a window with tabs; the end of a slide, half a second later, is an event of its own.
--  * Objects, Common: JavaScript objects as association lists; texts, lists and tests.
--
-- A text is the list of its code units. An object that several lists share is known by its place in the
-- array of all of them, so a write through one list is seen through the other. An exception is a value of
-- `Thrown`. A document is what `JSON.parse` can return, with the names of its properties in their order;
-- property names like `__proto__`, which JavaScript treats specially, are taken not to occur, and neither
-- are names of array indices, which `for … in` would put first.
--
-- The walks along `children`, `groups` and `cartridges` take the number of rows as fuel: on a way down
-- from a root no row of a tree is met twice. Where rows form a cycle, the browser's walk does not end.
-- Export/Reading has the forest that connections stand for, as a description apart from the loops of the
-- exporters.
--
-- A node that is connected below a cartridge ends the second loop of the exporters in a TypeError, unless
-- the cartridge's own value has a list under `groups` or `cartridges` for it. This last case is marked
-- `left_open`, and what the exporters make of it is left open; so is what `components` holds in the form's
-- value once the second loop has thrown.
--
-- Not modelled: the helpers ifCond and UnixConvert of theme.js; the lists of scripts of each page; the
-- slide windows without tabs; jQuery, jsPlumb, d3, dagre, JSONEditor and noty, which the pages only call; the server pages; dragging and painting on the whiteboard; the policies that a form
-- offers and the lists of cartridges and groups.
pub mod Application
pub mod Common
pub mod Export
pub mod Forest
pub mod Forms
pub mod GroupJson
pub mod GroupTree
pub mod Json
pub mod Login
pub mod Objects
pub mod Renderers
pub mod Slides
pub mod Theme
pub mod Topology
pub mod Whiteboard
