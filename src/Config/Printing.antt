-- ===== src/Config/Printing.antt =====
-- A configuration that is written as configSkeleton/ has it, for `setup` of common/config.c.
use os_tp.Base.{
  ℕ, ◌≡◌, ◌≢◌, refl, ap, ◌∙◌, inl, inr, Bool, true, false, ◌&&◌, ◌||◌, not, some, [], ◌∷◌, ◌++◌,
  arith, Bytes, All, All-append, Bool-cases, ◌==◌, All-map,
}
use os_tp.Memory.Laws.{IsText}
use os_tp.Decimal.{codes, is_digit}
use os_tp.Regex.{letter, class}
use os_tp.Regex.Laws.{Star, done, more, Lang, Lang→matches}
use os_tp.Config.Lines.{ends_line}
use os_tp.Config.Meaning.{up_to_zero, trim, cleaned, key_of}
use os_tp.Config.{Config}
use os_tp.Config.Syntax.{is_param, param_regex}

pub record Values : Type 0 where
  pub server : Bytes
  pub listening_port : Bytes
  pub database : Bytes
  pub logging : Bytes

abbrev pub setting : Bytes → Bytes → Bytes
setting key value = key ++ b'=' ∷ value

abbrev pub setting_line : Bytes → Bytes → Bytes → Bytes
setting_line key value rest = 9 ∷ (setting key value ++ 10 ∷ rest)

unfoldable pub print_config : Values → Bytes
print_config v =
    codes "[addresses]"
    ++ 10
      ∷ setting_line (codes "server") v.server (
          setting_line (codes "listening port") v.listening_port (
            setting_line (codes "database") v.database
              (setting_line (codes "logging") v.logging (codes "end" ++ 10 ∷ []))))

-- A byte that may stand in a value.
abbrev pub value_byte : ℕ → Bool
value_byte c = not (c == 10 || c == 9 || c == b'=') && not (c == 0 || c == 255)

abbrev pub IsValue : Bytes → Type 0
IsValue v = All (λ c. value_byte c ≡ true) v

abbrev pub all : (ℕ → Bool) → Bytes → Bool
all p [] = true
all p (c ∷ s) = p c && all p s

pub all→All : (p : ℕ → Bool) (s : Bytes) → all p s ≡ true → All (λ c. p c ≡ true) s
all→All p [] h = tt
all→All p (c ∷ s) h = (ground arith, all→All p s (ground arith))

All→Star : (p : ℕ → Bool) (s : Bytes) → All (λ c. p c ≡ true) s → Star (Lang (class p)) s
All→Star p [] h = done refl
All→Star p (c ∷ s) h = more (c ∷ []) s refl (c, h.0, refl) (All→Star p s h.1)

abbrev pub key_byte : ℕ → Bool
key_byte c = letter c || is_digit c || c == b' '

abbrev in_param : ℕ → Bool
in_param c = not (c == 10 || c == 9 || c == b'=')

pub setting-is_param :
    (a : ℕ) (k v : Bytes)
    → letter a ≡ true
    → All (λ c. key_byte c ≡ true) k
    → IsValue v
    → is_param (setting (a ∷ k) v) ≡ true
unfolding is_param param_regex
setting-is_param a k v ha hk hv = Lang→matches param_regex (setting (a ∷ k) v) (
  a ∷ [],
  setting k v,
  refl,
  (a, ha, refl),
  (
    k,
    b'=' ∷ v,
    refl,
    All→Star key_byte k hk,
    (
      b'=' ∷ [],
      v,
      refl,
      (b'=', refl, refl),
      All→Star in_param v
          (All-map (λ c. value_byte c ≡ true) (λ c. in_param c ≡ true) (λ c h. ground arith) v hv),
    ),
  ),
)

up_to_zero-eq_self : (s : Bytes) → IsText s → up_to_zero s ≡ s
unfolding up_to_zero
up_to_zero-eq_self [] h = refl
up_to_zero-eq_self (c ∷ s) h = ground (arith, up_to_zero-eq_self s h.1)

pub key_of-setting : (k v : Bytes) → All (λ c. key_byte c ≡ true) k → key_of (setting k v) ≡ k
unfolding key_of
key_of-setting [] v h = refl
key_of-setting (c ∷ k) v h = elim (Bool-cases (c == b'=')) [
  | inl sign ↦ absurd (ground (arith, h.0))
  | inr other ↦ rw (other, key_of-setting k v h.1) refl
]

trim-letter : (a : ℕ) (s : Bytes) → letter a ≡ true → trim (9 ∷ a ∷ s) ≡ a ∷ s
unfolding trim
trim-letter a s h = ground arith

-- A byte that neither ends a line nor a string.
abbrev Plain : ℕ → Type 0
Plain c = not (ends_line c || c == 0) ≡ true

pub setting-clean :
    (a : ℕ) (k v : Bytes)
    → letter a ≡ true
    → All (λ c. key_byte c ≡ true) k
    → IsValue v
    → All (λ c. ends_line c ≡ false) (9 ∷ setting (a ∷ k) v)
      × (cleaned (9 ∷ setting (a ∷ k) v) ≡ setting (a ∷ k) v)
setting-clean a k v ha hk hv =
    let key_ok = All-map (λ c. key_byte c ≡ true) Plain (λ c h. ground arith) k hk in
    let value_ok = All-map (λ c. value_byte c ≡ true) Plain (λ c h. ground arith) v hv in
    let line = 9 ∷ setting (a ∷ k) v in
    let is_plain : All Plain line =
      (refl, (ground arith, All-append Plain k (b'=' ∷ v) key_ok (refl, value_ok))) in
    let is_text : IsText line = All-map Plain (λ c. c ≢ 0) (λ c h. ground arith) line is_plain in
    let is_line = All-map Plain (λ c. ends_line c ≡ false) (λ c h. ground arith) line is_plain in
    (is_line, ap trim (up_to_zero-eq_self line is_text) ∙ trim-letter a (setting k v) ha)

-- The values as C strings, without the blanks at their start.
abbrev pub config_of : Values → Config
config_of v = record {
  server = some (trim v.server ++ 0 ∷ []);
  listening_port = some (trim v.listening_port ++ 0 ∷ []);
  database = some (trim v.database ++ 0 ∷ []);
  logging = some (trim v.logging ++ 0 ∷ []);
}
