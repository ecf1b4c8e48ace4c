-- ===== src/Lib.antt =====
-- A verification library for the Streamlit frontend (frontend/src): the state that the browser keeps
-- for a report, and how messages to and from the server change it.
--
-- The parts and how they interact. The server sends messages over a websocket. `WebsocketConnection`
-- (frontend/src/lib/WebsocketConnection.tsx) keeps the connection, numbers the messages and hands them
-- over in order; on the way each goes through the `ForwardMsgCache`
-- (frontend/src/lib/ForwardMessageCache.ts), which replaces a reference by the message it stands for.
-- A message with a delta changes the tree of the report's elements
-- (frontend/src/lib/ReportNode.ts), and the deltas are counted by the `MetricsManager`
-- (frontend/src/lib/MetricsManager.ts). The widgets in the tree keep their values in the
-- `WidgetStateManager` (frontend/src/lib/WidgetStateManager.ts), which sends them to the server;
-- the `FileUploadClient` (frontend/src/lib/FileUploadClient.ts) counts the uploads each form waits for.
-- `App` (frontend/src/App.tsx) owns them all: it hands the messages of the `ConnectionManager` to its
-- handlers, applies deltas to a tree that it shows in batches, tells the widgets which of them are left
-- when a report ends, and turns the user's commands into messages to the server.
-- Elements with tables hold a `Quiver` (frontend/src/lib/Quiver.ts), to which a delta may add rows.
--
-- The files. `Prelude` has the shared names, lists and integers, `JsMap` the runtime's maps and
-- sets, and `SessionInfo` the data of a session (frontend/src/lib/SessionInfo.ts). A module per part
-- has the definitions, by the source's names in snake case, and its child modules the rest of the
-- definitions and the proofs:
--   `Connection`: the class `WebsocketConnection`, its state machine and timers (`step_fsm` is
--     `stepFsm`, `on_close` the handler of `onclose`, and so on); `Connection/Dispatch` is
--     `handleMessage` and `Connection/Ping` is `doHealthPing`, and
--     `Connection/Manager` is `ConnectionManager` (frontend/src/lib/ConnectionManager.ts).
--   `Cache`: `ForwardMsgCache`.
--   `Legacy`: the legacy data frames (frontend/src/lib/dataFrameProto.ts): `Legacy/Concat` has the
--     lengths and the concatenation, `Legacy/AddRows` is `addRows`, `Legacy/Cells` reads values
--     and `Legacy/Whole` the cells of the whole table.
--   `Report`: `Report/Node` is `BlockNode` and the shape of the tree, `Report/ElementNode` the leaves,
--     `Report/Root` is `ReportRoot`, `Report/Proto` the protobufs of proto/streamlit/proto.
--   `Metrics`: `MetricsManager`.
--   `Uploads`: `FileUploadClient`.
--   `Uploader`: the widget `FileUploader` (frontend/src/components/widgets/FileUploader);
--     `Uploader/Events` has its handlers, and `Uploader/Changes` splits what they do to the files.
--   `App`: the class `App`. `App/Calls` has the calls that its methods share, `App/Commands` those
--     of the user, `App/Session`, `App/Reports` and `App/Elements` the handlers
--     (`handle_delta_msg` is `handleDeltaMsg`, and so on), `App/Messages` is `handleMessage`, and
--     `App/Happenings` has the happenings that the properties range over: messages, timeouts, the
--     state of the connection, the user's commands, and the calls of its parts. The modules named
--     after cores follow its trees, its run state and its requests.
--   `Quiver`: the Arrow data frames, `Quiver` (frontend/src/lib/Quiver.ts). `Quiver/Parse` is its
--     constructor, `Quiver/Concat` and `Quiver/AddRows` are `addRows`, `Quiver/Cells` the dimensions
--     and `getCell`. A frame is aligned (`IsAligned`) when its grids have the sizes that belong
--     together.
--   `Tables`: the report tree over both kinds of data frames; it fills the interface `Report/Frames`.
--   `Widgets`: `Widgets/Values` has the protobuf of the values, `Widgets/StateDict` is
--     `WidgetStateDict`, `Widgets/Manager`, `Widgets/Accessors`, `Widgets/Buttons` and
--     `Widgets/Submit` are `WidgetStateManager`.
-- Tests and witnesses stand in the modules named `Tests`.
--
-- How code becomes definitions. A method that changes its object takes the object and returns it
-- changed; one that may throw returns a `Result`, or an optional error beside the object where it has
-- changed the object before it throws. Callbacks and calls of the browser are recorded in a list. An
-- asynchronous method is split at its `await`: what happens in between is any sequence of other steps,
-- which the reachability relations (`Reached`, `Received`, `Cached`) spell out. An object of the
-- browser, such as a socket, is a number, so that a stale one differs from the current one.
--
-- Bounds and fuel. Counters are natural numbers without a bound, as the code's doubles are exact far
-- beyond what they count. The loop of `handleMessage` runs on as much fuel as its queue has messages;
-- each round removes one. All other recursion is structural.
--
-- Not modelled: the React components other than `App` and `FileUploader`, how legacy data frames
-- are sorted and formatted, how `Quiver` formats a value, the rendering of `App`,
-- `StaticConnection`, the requests of uploads but for the throw where there is no server, and the
-- URLs of requests. Libraries (protobufjs, immer, typed-signals, long.js, ArrowJS, lodash) are
-- parameters or taken by what they document. A quiver that `addRows` changes in place is a new
-- value: what else refers to the old one is not followed. `getElements` is a list with an element
-- for each leaf, where the code's set merges leaves that share an element's object. What `App` does
-- is followed from its mount on, and its manager's state with it.
pub mod Prelude
pub mod JsMap
pub mod SessionInfo
pub mod Widgets
pub mod Report
pub mod Metrics
pub mod Cache
pub mod Connection
pub mod Uploads
pub mod Uploader
pub mod Quiver
pub mod Legacy
pub mod App
pub mod Tables
