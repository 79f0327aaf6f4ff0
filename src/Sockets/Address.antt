-- ===== src/Sockets/Address.antt =====
-- The addresses of common/commWithSockets.c, `ddd.ddd.ddd.ddd:ppppp`, and what it checks of them.
use os_tp.Base.{
  ℕ, suc, ◌+◌, ◌-◌, ◌%◌, Bool, true, false, ◌&&◌, not, Option, none, some, [], ◌∷◌, ◌++◌, Bytes,
  drop, Outcome, ok, fault, ◌>>=◌, ℤ, pos, negsuc, ltb, ◌==◌, if◌then◌else◌,
}
use os_tp.Memory.{strlen, read_block, text_of}
use os_tp.Decimal.{is_digit, strtol}
use os_tp.Regex.{Regex, class, seq, alt, byte, opt, up_to, range, matches}

-- The position of the first colon; none for -1.
unfoldable pub search_for_colon : Bytes → Outcome (Option ℕ)
search_for_colon [] = fault
search_for_colon (c ∷ address) =
    let rest = search_for_colon address in
    if c == 0
    then ok none
    else if c == b':'
    then ok (some 0)
    else (do i ← rest; ok (elim i [ none ↦ none | some n ↦ some (suc n) ]))

abbrev pub digit : Regex
digit = class is_digit

-- "0|[3-9][0-9]?|1[0-9]?[0-9]?|25[0-5]|2[0-4]?[0-9]?|2[0-9]"
unfoldable pub octet_regex : Regex
octet_regex = alt (byte b'0') (
    alt (seq (class (range b'3' b'9')) (opt digit)) (
      alt (seq (byte b'1') (seq (opt digit) (opt digit))) (
        alt (seq (byte b'2') (seq (byte b'5') (class (range b'0' b'5')))) (
          alt (seq (byte b'2') (seq (opt (class (range b'0' b'4'))) (opt digit)))
            (seq (byte b'2') digit)))))

-- `getIPRegEx`: "^((octet)\\.){1,3}(octet)$".
unfoldable pub ip_regex : Regex
unfolding octet_regex
ip_regex = let part = seq octet_regex (byte b'.') in seq (seq part (up_to 2 part)) octet_regex

-- `getPortRegEx`: "^(0|[1-9][0-9]{1,4})$".
unfoldable pub port_regex : Regex
port_regex = alt (byte b'0') (seq (class (range b'1' b'9')) (seq digit (up_to 3 digit)))

unfoldable pub check_ip : Bytes → Outcome Bool
unfolding ip_regex
check_ip ip = do text ← text_of ip; ok (matches ip_regex text)

-- What an `unsigned short` keeps of an `int`.
abbrev pub to_ushort : ℤ → ℕ
to_ushort (pos n) = n % 65536
to_ushort (negsuc n) = 65535 - n % 65536

unfoldable pub check_port : Bytes → Outcome Bool
unfolding port_regex
check_port port_str = do
  text ← text_of port_str
  ok (
      if not (matches port_regex text)
      then false
      else if ltb 65535 (to_ushort (strtol text))
      then false
      else true)

-- The part before the colon, in a block of its own with a terminator.
unfoldable pub ip_part : ℕ → Bytes → Outcome Bytes
ip_part colon_position address = do b ← read_block colon_position address; ok (b.0 ++ 0 ∷ [])

-- The part behind the colon, in the same way.
unfoldable pub port_part : ℕ → Bytes → Outcome Bytes
unfolding strlen
port_part colon_position address = do
  length ← strlen address
  b ← read_block (length - colon_position - 1) (drop (colon_position + 1) address)
  ok (b.0 ++ 0 ∷ [])

unfoldable pub is_valid_address : Bytes → Outcome Bool
unfolding search_for_colon ip_part port_part check_ip check_port
is_valid_address address = do
  colon_position ← search_for_colon address
  elim colon_position [
    | none ↦ ok false
    | some i ↦ (do
      ip ← ip_part i address
      port ← port_part i address
      flag1 ← check_ip ip
      flag2 ← check_port port
      ok (flag1 && flag2))
  ]
