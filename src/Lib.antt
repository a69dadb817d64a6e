-- ===== src/Lib.antt =====
-- Super Mario Odyssey Online: the mod that lets several players of the game see each other.
--
-- The mod's C++ code under mod/src runs inside the game. A client (server/Client.cpp) receives packets
-- from a server, keeps what it knows of the other players in an array of puppet infos, and the game's
-- frames show these players as puppet actors. Game modes (hide and seek, capture the flag) add their own
-- state. The files here translate that code into functions on explicit state.
--
--   Base.antt      what the modules share: tests, options, lists, byte strings, C strings in
--                  buffers, signed integers, and floats as their bit patterns
--   Timer.antt     mod/src/server/gamemode/GameModeTimer.hpp and mod/src/server/hns/GameModeTimer.cpp;
--                  `update_timer` is `GameModeTimer::updateTimer`
--   Puppets.antt   mod/src/puppets/PuppetInfo.h, PuppetHolder.cpp and the parts of PuppetActor.cpp that
--                  the holder calls; `update` is `PuppetHolder::update`, `resize_holder` is
--                  `PuppetHolder::resizeHolder`; Puppets/Costume.antt is the list of costumes of
--                  mod/src/helpers.hpp and the names a puppet is loaded by
--   HackModels.antt  mod/src/puppets/HackModelHolder.hpp and mod/src/server/HackModelHolder.cpp: the
--                  capture models of one puppet
--   Stages.antt    mod/src/server/capturetheflag/StageManager.cpp: stages, borders and sub-areas
--   Packets.antt   proto/packets/*.proto and mod/src/packets/Packet.cpp: the messages
--   Modes.antt     mod/src/server/gamemode: the state of the game modes and of their manager;
--                  Modes/Scene.antt is GameModeManager.cpp, whose `initScene` is `init_scene`
--   Client.antt    mod/src/server/Client.cpp: Client/State.antt is the state, Client/Find.antt is
--                  `findPuppetInfo`, Client/Infos.antt the handlers of the packets about players,
--                  Client/Anims.antt the table of mod/src/algorithms/PlayerAnims.h,
--                  Client/Shines.antt the arrays of shines, Client/Flags.antt the flags of
--                  mod/src/actors/FlagActor.cpp, Client/Handlers.antt the handlers that change the
--                  game, and Client/Dispatch.antt the loop of `readFunc`
--   Game.antt      what the frames of the game modes read of the game and call of it
--   Ctf.antt       mod/src/server/capturetheflag/CaptureTheFlagMode.cpp: Ctf/State.antt is the state of
--                  a round, Ctf/Place.antt the side of the player, the border and the flags, and
--                  Ctf/Play.antt the frame, whose `update_ctf` is `CaptureTheFlagMode::update`
--   Hns.antt       mod/src/server/hns/HideAndSeekMode.cpp: begin, end and the frame of hide and seek,
--                  whose `update_hns` is `HideAndSeekMode::update`
--   Session.antt   a game of capture the flag over one state: `handle` for the packets of `readFunc`, and
--                  `mode_turn` for `GameModeManager::update` with the mode's begin, end and frame
--   Socket.antt    mod/src/server/SocketClient.cpp: the queue of packets to send, and the functions of
--                  Client.cpp that build packets for it; Socket/Wire.antt is `send` and `recv`,
--                  Socket/Cap.antt the packets about the own cap, capture and costume, and
--                  Socket/Move.antt those about the own movement
--   Connect.antt   mod/src/server/SocketClient.cpp and SocketBase.cpp: `init_socket` is `SocketClient::init`,
--                  with `tryReconnect`, and `pump` is `trySendQueue` with a `send` that may reconnect;
--                  Connect/Start.antt is `startConnection` and `restartConnection` of
--                  Client.cpp
--   Captures.antt  mod/src/server/captureSync.cpp with mod/src/algorithms/CaptureTypes.h: the capture
--                  models that a placement of the stage makes for the puppets
--   Crc.antt       mod/src/algorithms/crc32.h: the hash of a name, and in Crc/Index.antt the search for a
--                  name by its hash; Client/Anims/Find.antt is `FindType` over it
--
-- How the code is read. A function whose result is an `Option` has undefined behaviour in the code
-- where it is `none`: an access outside of an array, a `strcpy` past the end of a buffer, a call on a
-- null pointer. To free a packet that is a member of the client is undefined too: the queue's functions show it
-- in `freed`, since the client does it in more than one place, and a turn of Session.antt is `none` there. A pointer to an element of an array is the index of that element. Numbers of a packet
-- are stored with the wrap-around of the field they go to. Float arithmetic and what the game
-- computes are parameters. A packet takes effect between two turns of the mode, where the program's
-- read thread may also meet the frame in the middle; in Session.antt the send thread
-- takes no turn, and a packet that a handler sends at once does not reconnect. Counters such as the number of connected players are integers without a bound.
--
-- Fuel: the copying loop of `resize_holder`, which need not end, and the loops of `recv`, whose fuel
-- is the number of bytes wanted: each round reads at least one. The fuel of `try_reconnect` is the number of
-- reconnections that may be open within each other, since a send that fails reconnects and a reconnection
-- sends; the code has no bound for it. `none` is out of fuel there.
--
-- Not modelled: the drawing of layouts and menus, the hooks into the game, the software keyboard, the scheduling
-- of the threads, and the headers of the game and of its engine, which are other projects' code. The server is
-- written in another language.
pub mod Base
pub mod Crc
pub mod Timer
pub mod Puppets
pub mod HackModels
pub mod Stages
pub mod Packets
pub mod Modes
pub mod Client
pub mod Socket
pub mod Captures
pub mod Connect
pub mod Game
pub mod Ctf
pub mod Hns
pub mod Session
