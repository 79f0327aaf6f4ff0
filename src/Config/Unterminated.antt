-- ===== src/Config/Unterminated.antt =====
-- The block of `getParam` of common/config.c has no room for a terminator.
use os_tp.Base.{
  ℕ, suc, ◌+◌, ◌*◌, ◌≡◌, refl, ap, ◌∙◌, true, false, none, some, [], ◌∷◌, ◌++◌, arith, Bytes, All,
  length, fault, ok, bind-ok, ◌>>=◌, if◌then◌else◌, subst,
}
use os_tp.Decimal.{codes}
use os_tp.Memory.Laws.{IsText, text_of-append}
use os_tp.Config.Lines.{ends_line}
use os_tp.Config.Meaning.{up_to_zero, trim, first_line}
use os_tp.Config.Reading.{read_line_lem}
use os_tp.Config.Settings.{is_param-HasEquals, get_param-key_of}
use os_tp.Config.Sections.{cleaned-IsText, q0_action_lem}
use os_tp.Config.Printing.{
  Values, IsValue, setting, setting_line, print_config, key_byte, all→All, setting-clean,
  setting-is_param, key_of-setting,
}
use os_tp.Config.{Config, new_config, q0, calls, q1_action, action, run, parse, setup}
use os_tp.Config.Syntax.{get_param}

first_line-append :
    (l rest : Bytes)
    → All (λ c. ends_line c ≡ false) l
    → first_line (l ++ 10 ∷ rest) ≡ (l, record { content = rest; at_end = false })
unfolding first_line
first_line-append [] rest h = refl
first_line-append (c ∷ l) rest h = rw (h.0, first_line-append l rest h.1) refl

server_is_key : All (λ c. key_byte c ≡ true) (codes "erver")
server_is_key = all→All key_byte (codes "erver") refl

q1_action-server :
    (v rest : Bytes) (config : Config)
    → IsValue v
    → q1_action []
        (record { content = setting_line (codes "server") v rest; at_end = false })
        config
      ≡ fault
unfolding q1_action
q1_action-server v rest config hv =
    let (is_line, clean) = setting-clean b's' (codes "erver") v refl server_is_key hv in
    let l = setting (codes "server") v in
    let first : (first_line (9 ∷ (l ++ 10 ∷ rest))).0 ≡ 9 ∷ l =
      ap (λ r. r.0) (first_line-append (9 ∷ l) rest is_line) in
    let is_text : IsText l = subst IsText clean (cleaned-IsText (9 ∷ l)) in
    let param = setting-is_param b's' (codes "erver") v refl server_is_key hv in
    let key : get_param (l ++ 0 ∷ []) ≡ ok (codes "server") =
      get_param-key_of l (0 ∷ []) (is_param-HasEquals l param)
      ∙ ap ok (key_of-setting (codes "server") v (refl, server_is_key)) in
    bind-ok _ (read_line_lem (record { content = 9 ∷ (l ++ 10 ∷ rest); at_end = false }))
      (rw (first, clean, text_of-append l [] is_text, param) (bind-ok _ key refl))

run-addresses :
    (rest : Bytes) (config : Config) (r : ℕ)
    → q1_action [] (record { content = rest; at_end = false }) config ≡ fault
    → run (suc (suc r)) [] (
        calls q0 none
          (record { content = codes "[addresses]" ++ 10 ∷ rest; at_end = false })
          config)
      ≡ fault
unfolding run action first_line trim up_to_zero
run-addresses rest config r faults =
    bind-ok (run (suc r) []) (q0_action_lem (codes "[addresses]" ++ 10 ∷ rest) config)
      (rw faults refl)

-- A configuration file that is written as those of configSkeleton/ are, with the section's tag, the
-- four settings behind a tab each and the end, makes `setup` read past the block that `getParam`
-- allocates, where that block is the last memory that can be read: the key of the server is compared
-- with its tag as far as the terminator that `getParam` leaves out. The server's value has no zero
-- byte, tab, line feed, equals sign or byte 255.
pub setup-fault : (v : Values) → IsValue v.server → setup [] (some (print_config v)) ≡ fault
unfolding setup parse print_config
setup-fault v hs =
    let start = λ (n : ℕ).
      run n [] (calls q0 none (record { content = print_config v; at_end = false }) new_config) in
    let rounds : 2 * length (print_config v) + 4 ≡ suc (suc (2 * length (print_config v) + 2)) =
      omega arith in
    ap (λ r. r >>= (λ x. ok (if x.0 then some x.1 else none)))
      (ap start rounds ∙ run-addresses _ new_config _ (q1_action-server v.server _ new_config hs))
