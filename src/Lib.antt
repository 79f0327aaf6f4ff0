-- ===== src/Lib.antt =====
-- Verification of a shop for drinks: clients order over sockets or FIFOs, a main server forks a
-- server for each client, and one database server keeps the stock in SQLite.
--
-- The parts, and the files that model them (paths from the repository's root):
--   common/lib.c          ensureRead and ensureWrite: Descriptors, over `read` and `write` as
--                         parameters (Posix); countDigits: Decimal.
--   common/product.c      Product: the record product_t and its operations; Product/Codec;
--                         Product/Printing: productPrint and productFree.
--   common/order.c        Order: order_t, the array of entry pointers, orderAdd, orderSetAddress,
--                         orderGetTotal; Order/Serial: orderSerialize and orderUnserialize;
--                         Order/Printing: orderPrint and orderFree.
--   common/commWithSockets.c, common/commWithFIFOs.c
--                         Comm: conn_send and conn_receive of both; Sockets: opening, listening,
--                         accepting and closing over TCP, and Sockets/Address the checks of
--                         addresses; Fifos: the same over FIFOs. Descriptors/Select:
--                         select_wrapper.
--   common/config.c       Config: the automaton, its arcs and actions; Config/Lines: readLine and
--                         leadingTrim; Config/Syntax: isParam, isSectionTag, getParam and
--                         getValue, over the regular expressions of Regex; Config/Meaning: what a
--                         configuration file means.
--   database/databaseServer.c
--                         Database/Stock: run_query, get_stock, verifyOrderStock, update_stock;
--                         Database/Store: store_verified_order; Database/Place: place_order;
--                         Database/Catalogue: append_products, get_products, send_products;
--                         Database/Serve: init and the loop of main; Database/Main: main.
--                         Database/Shelf and Database/Shop: the abstract shop, a stock by product
--                         and what it replies to a request.
--   server/forkedServer.c
--                         Forked: getProducts, sendProducts, processOrder, and the mutex as one
--                         process sees it; Forked/Serve: the loop over a client's requests.
--   server/dbConn.c       Shared: the shared memory created and destroyed. Sharing: how the forked
--                         servers interleave over one mutex and one pair of pipes, as a step
--                         relation.
--   server/mainServer.c   MainServer: startDBServer, stopDBServer, createForkedServer and main;
--                         MainServer/Accepting: its loop, in the parent and in the children, which
--                         run Forked/Serve.
--   client/client.c       Client: requestProducts, addToOrder, submitOrder and disconnect;
--                         Client/Menu: the loop of main; Client/Main: its start, and shutDown;
--                         Terminal: scanInt; Product/Printing: printProducts.
--   client/dummyClient.c  Client/Dummy: main of the client that stresses the server.
--   database/dbCommandLine.c
--                         Database/CommandLine: the prompt.
--   logging/logging.c, logging/loggingDaemon.c
--                         Logging: logMessage, and the daemon that prints what it sends.
--   Base, Io, Memory, Strings and Encoding are what they share: C's int, outcomes, blocks of
--   memory, terminated strings, and how numbers lie in memory.
--
-- How the code is read. A function that can run outside a block, follow NULL or use undefined
-- memory gives `fault`; fresh memory is a function `junk` of the index, and the theorems hold for
-- any. An `int` is an integer with its range as a condition, and wraps where the code adds; a
-- `float` is its 32-bit pattern, and the arithmetic on floats, its conversion and `%.2f` are
-- parameters (Floats, Printing). What is not in the repository is a parameter as well, with what
-- its documentation says as named hypotheses: the system calls on descriptors (Stream, Sink and
-- Channel), on sockets (Network), on files (Files), on shared memory (SharedMemory) and on
-- processes (Processes), and SQLite (Engine, Products, Inserts and Listing).
--
-- Bounds and fuel. The `int` counters of ensureRead and ensureWrite wrap around at 2^31, which
-- bounds the messages, and the `int` offset of a product bounds its serialized form. The loops of
-- ensureRead and ensureWrite take `rounds`; more rounds than bytes are enough, since each call moves
-- a byte at least, and `blocked` says that they ran out. A loop over an order runs once for each entry, at most 16 times. countDigits and the printing of numbers take
-- as many rounds as the number is large, which is more than its digits. The loop of main takes a
-- round for each command. The actions of the automaton call one another at most twice for each
-- line of the file and once at its end. What is read from the terminal takes as many rounds as
-- there are bytes typed, and the client's loops and those of the two servers that accept and serve
-- clients take the rounds that they are given.
--
-- How the parts interact. A client puts an order into bytes (Order/Serial) and sends them as a
-- message (Comm); the forked server passes them on (Forked/Orders); place_order of the database
-- server (Database/Place) reads them with ensureRead, restores the order, compares it with the
-- stock and replies with a code, and for an order that the stock does not satisfy with the order
-- that it would. The list of products goes the other way (Database/Catalogue, Forked/Products).
-- Database/Serve/Requests and Forked/Requests are about both loops over any sequence of requests,
-- against the abstract shop, and Client/Visiting about a client's session.
-- Sharing is about the forked servers together, the mutex between them, and what a process that
-- returns with it held does to the others.
--
-- Not modelled: the overflow of the `int` offset of common/order.c, for an order whose address is
-- within 204 bytes of 2 GiB (the offset is a number without bound here); the prompts of the programs
-- and what they log; the copy of dbConn.c under database/, which no program is built from; SQLite, a
-- copy of a third-party library.
pub mod Base
pub mod Memory
pub mod Strings
pub mod Encoding
pub mod Decimal
pub mod Descriptors
pub mod Io
pub mod Comm
pub mod Product
pub mod Order
pub mod Database
pub mod Regex
pub mod Sockets
pub mod Fifos
pub mod Terminal
pub mod Client
pub mod Shared
pub mod MainServer
pub mod Logging
pub mod Config
pub mod Forked
pub mod Sharing
pub mod Tests
