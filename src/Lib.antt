-- ===== src/Lib.antt =====
-- wa_game: a top-down shooter with a server that decides and clients that predict. This library
-- models its core.
--
-- lib/coregame is the game that the server and the clients share. A map (cg_map.c) is a grid of
-- cells; a game (coregame.c) has players, who hold guns and shoot bullets, on a map; a ring of
-- snapshots (sbsm.c) keeps the last states of the players and bullets, so that an input that arrives
-- late can be put where it belongs and the game played again from there. server/ owns a game, hands
-- the messages of its clients to it and tells the other clients what happened; its event loop keeps
-- a list of events. client/ switches between a menu, the game and a map editor; in the game it takes
-- over what the server tells of the players, and sends its player's input.
--
-- Prelude: shared names, lists, signed integers, loops that may fault.
-- Platform: what the program calls and does not implement, as interfaces: arrays and clamps (the
--   submodule lib/cutils), hash tables (lib/ght), the machine's floating point. Platform.Models has
--   instances of them.
-- Vec: lib/coregame/include/vec.h and rect.h.
-- Map, Map.Disk: lib/coregame/src/cg_map.c. `map_new`, `map_resize`, `map_save`, `map_load` are the
--   functions `cg_map_…`. `cells[]` is a list and a pointer to a cell an index of it.
-- Map.World: the lookup of a cell by a position of the world, same file.
-- Game: the structs of lib/coregame/include/coregame.h and sbsm.h. An object behind a pointer is
--   an entry of its table, named by its key, and what a callback is told is appended to `notices`. A
--   gun has its kind as a value, where the source points into the array of kinds, so that a pointer
--   left behind when that array grows is not seen.
-- Game.Cells, Game.Guns, Game.Input: lists of players in cells, guns and
--   inputs in lib/coregame/src/coregame.c, functions `cg_…` and `coregame_…`.
-- Game.Collision, Game.Walk: the collision of rectangles, and the cells on a way or under a player,
--   same file.
-- Game.Movement, Game.Bullets: the updates of players and bullets, same file; a callback that changes
--   the game is an argument.
-- Game.Players: how players join and leave, same file.
-- Game.Snapshots, Game.Rotation, Game.Replay: lib/coregame/src/sbsm.c, functions `sbsm_…`, and
--   `coregame_update`, which calls them.
-- Server: server/include/server.h, the broadcasts of server/src/server.c and, in Server.Session and
--   Server.Spawn, `server_verify_session` and `server_next_spawn`; in Server.Closing,
--   `server_close_client` and `server_routine_checks`. What is pushed into the clients'
--   buffers is a log.
-- Server.Handlers: the handlers of segments and the callbacks in server/src/server_game.c.
-- Server.Events: server/src/event.c, the events on an explicit heap.
-- Client.Application: client/include/game.h, player.h, client_net.h, app.h and the chat of
--   client/src/game.c. What is pushed into the buffers of a connection is a log.
-- Client.Application.Receive: client/src/game_net_events.c, the handlers of the server's segments.
-- Client.Application.Net: client/src/client_net.c, what the client does when it connects, with the
--   address that the user types; `game_init` of client/src/game.c.
-- Client.Application.Handlers: client/src/client_net.c, the table of handlers, with the segments that
--   begin the game and measure the connection.
-- Client.Application.Keys: the keys and the mouse in client/src/game.c.
-- Client.Editor: client/src/map_editor.c, the cells that the editor sets and the selection of a map.
-- Client.States: client/src/state.c; of the callbacks of a state it is kept which are called.
-- Tests: the theorems at concrete states.
--
-- A function that can fault, by a read or write outside an allocation or through a null or freed
-- pointer, returns an Option, `none` being the fault. Machine integers wrap where the source's do.
-- Allocation always succeeds. Loops that are not over a list or a range run on fuel:
-- * the one that fires a gun, as many rounds as the gun has ammunition: each round takes one, and the
--   loop stops without any;
-- * the walk between two points, the map's width and height and one more: each round goes one cell
--   further in one of two directions that do not change, and the walk ends outside the map;
-- * the replay, the size of the ring: each round goes to the next snapshot, until the present one;
-- * the closing of all events, as many as there are: each round closes one.
--
-- The game is modelled as the server is built (CG_SERVER), and the client's handlers as the client is
-- built (CG_CLIENT); the interpolation of positions, which only the client has, is not modelled. Not
-- modelled either: sockets, timers, epoll and statistics; the client's rendering and
-- windows, and the files of the map editor. Printing is left out.
pub mod Prelude
pub mod Platform
pub mod Map
pub mod Vec
pub mod Game
pub mod Server
pub mod Client
mod Tests
