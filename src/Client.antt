-- ===== src/Client.antt =====
-- mod/src/server/Client.hpp and Client.cpp: the client that keeps the state of the other players and
-- of the game from the packets of the server.
pub mod State
pub mod Find
pub mod Infos
pub mod Shines
pub mod Flags
pub mod Handlers
pub mod Dispatch
mod Tests
pub mod Anims
