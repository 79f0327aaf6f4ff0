-- ===== src/Tests/Config.antt =====
-- common/config.c on the files of configSkeleton.
use os_tp.Base.{◌≡◌, refl, some, [], ◌∷◌, ◌++◌, Bytes, ok, fault}
use os_tp.Memory.{strlen, read_block, text_of}
use os_tp.Decimal.{codes}
use os_tp.Regex.{matches}
use os_tp.Config.Lines.{leading_trim, read_line}
use os_tp.Config.Printing.{Values, print_config, all→All, value_byte}
use os_tp.Config.Unterminated.{setup-fault}
use os_tp.Config.{
  new_config, move_to, q0_action, q1_action, store_action, action, run, parse, setup,
}
use os_tp.Config.Syntax.{param_regex, section_regex, find_equals, get_value}

abbrev pub line_feed : Bytes
line_feed = 10 ∷ []

abbrev pub sockets_conf : Bytes
sockets_conf =
    codes "[addresses]"
    ++ (line_feed
        ++ (9 ∷ codes "server=127.0.0.1:8000"
            ++ (line_feed
                ++ (9 ∷ codes "listening port=8000" ++ (line_feed ++ (codes "end" ++ line_feed))))))

reads_skeleton :
    setup (0 ∷ []) (some sockets_conf)
    ≡ ok (
        some (record new_config {
          server = some (codes "127.0.0.1:8000" ++ 0 ∷ []);
          listening_port = some (codes "8000" ++ 0 ∷ []);
        }))
unfolding setup parse run action q0_action q1_action store_action read_line leading_trim strlen
    read_block text_of matches section_regex move_to param_regex find_equals get_value
reads_skeleton = refl

abbrev two_addresses : Values
two_addresses = record {
  server = codes "127.0.0.1:8000";
  listening_port = codes "8000";
  database = codes "/tmp/db";
  logging = [];
}

setup-fault_example : setup [] (some (print_config two_addresses)) ≡ fault
setup-fault_example = setup-fault two_addresses (all→All value_byte (codes "127.0.0.1:8000") refl)
