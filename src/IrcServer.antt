-- ===== src/IrcServer.antt =====
-- internal/ircserver: the IRC server that people's clients connect to.
pub mod Parse
pub mod Login
pub mod Format
pub mod Caps
pub mod Client
mod Examples
