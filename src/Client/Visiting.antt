-- ===== src/Client/Visiting.antt =====
-- A whole session of client/client.c: one product is added and the order is placed.
use os_tp.Product.{Product}
use os_tp.Order.{Order}
use os_tp.Descriptors.Channel.{Channel}
