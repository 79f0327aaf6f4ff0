-- ===== src/Regex.antt =====
-- The regular expressions of common/config.c and common/commWithSockets.c, as `regcomp` and `regexec`
-- read them: an expression between `^` and `$` matches the whole string.
pub mod Laws
use os_tp.Base.{
  ℕ, zero, suc, Bool, true, false, ◌&&◌, ◌||◌, List, [], ◌∷◌, ◌++◌, ◌≡◌, Bytes, leb, ◌==◌,
  if◌then◌else◌,
}

pub data Regex : Type 0 where
  nothing empty : Regex
  class : (ℕ → Bool) → Regex
  seq alt : Regex → Regex → Regex
  star : Regex → Regex

-- A byte, a text, `r?`, and `r{m,m+n}`.
abbrev pub byte : ℕ → Regex
byte b = class (λ c. c == b)

abbrev pub opt : Regex → Regex
opt r = alt empty r

abbrev pub up_to : ℕ → Regex → Regex
up_to zero r = empty
up_to (suc n) r = opt (seq r (up_to n r))

abbrev pub letter : ℕ → Bool
letter c = (leb b'a' c && leb c b'z') || (leb b'A' c && leb c b'Z')

abbrev pub range : ℕ → ℕ → ℕ → Bool
range low high c = leb low c && leb c high

-- Whether the empty string matches.
unfoldable pub nullable : Regex → Bool
nullable nothing = false
nullable empty = true
nullable (class p) = false
nullable (seq r t) = nullable r && nullable t
nullable (alt r t) = nullable r || nullable t
nullable (star r) = true

-- What must match behind a byte.
unfoldable pub deriv : ℕ → Regex → Regex
unfolding nullable
deriv c nothing = nothing
deriv c empty = nothing
deriv c (class p) = if p c then empty else nothing
deriv c (seq r t) =
    let first = seq (deriv c r) t in
    let later = deriv c t in if nullable r then alt first later else first
deriv c (alt r t) = alt (deriv c r) (deriv c t)
deriv c (star r) = seq (deriv c r) (star r)

-- `!regexec(&regex, s, 0, NULL, 0)`.
unfoldable pub matches : Regex → Bytes → Bool
unfolding nullable deriv
matches r [] = nullable r
matches r (c ∷ s) = matches (deriv c r) s
