-- ===== src/Tests/Starting.antt =====
-- The start of client/client.c with the skeleton of its configuration, where the connection is refused:
-- opening leaves the address in the world.
use os_tp.Base.{none, ok, Option, Bytes}
use os_tp.Io.{Io}
use os_tp.Client.{Link}

abbrev refusing : Bytes → Io Bytes (Option (Link Bytes))
refusing address w = ok (none, address)
