-- ===== src/Login.antt =====
-- The login server's main loop: the peers that are connected and their handlers, of
-- bmloginsvrapp/handle_eventfromclient.go and handle_eventfromserver.go.
pub mod State
pub mod Registry
pub mod Roles
pub mod LoginGame
pub mod Clients
pub mod Servers
pub mod Frame
pub mod Verify
pub mod Tie
pub mod ServerMap
pub mod ClientMap
pub mod Runs
pub mod Departure
pub mod HandOver
mod Tests
