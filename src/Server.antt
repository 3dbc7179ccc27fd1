-- ===== src/Server.antt =====
-- covert-server/src: the tables of the encrypted store, and the errors of the server.
pub mod Tables
