-- ===== src/Database.antt =====
-- database/databaseServer.c: the server that keeps the products and the orders in SQLite.
-- Logging, which changes nothing that the server reads, is left out.
pub mod Shelf
pub mod Engine
pub mod Stock
pub mod Store
pub mod Place
pub mod Catalogue
pub mod Serve
pub mod Main
pub mod Shop
pub mod CommandLine
