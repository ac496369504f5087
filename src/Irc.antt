-- ===== src/Irc.antt =====
-- internal/irc: the connections to IRC networks.
pub mod Sasl
