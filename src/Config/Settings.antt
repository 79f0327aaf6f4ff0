-- ===== src/Config/Settings.antt =====
-- `isParam`, `getParam` and `getValue` of common/config.c on the lines that are settings.
use os_tp.Base.{
  ◌≡◌, refl, sym, ap, ◌∙◌, inl, inr, true, [], ◌∷◌, ◌++◌, append_assoc, arith, Bytes, length,
  length-append, ok, ◌==◌, ==_iff, Bool-cases, bind-ok, suc,
}
use os_tp.Memory.{read_block}
use os_tp.Memory.Laws.{IsText, read_block-append}
use os_tp.Regex.Laws.{matches→Lang}
use os_tp.Config.Syntax.{param_regex, is_param, find_equals, get_param, get_value}
use os_tp.Config.Meaning.{key_of, value_of}

pub data HasEquals (s : Bytes) : Type 0 where
  equals_in : (x y : Bytes) → s ≡ x ++ b'=' ∷ y → HasEquals s

pub is_param-HasEquals : (s : Bytes) → is_param s ≡ true → HasEquals s
unfolding is_param param_regex
is_param-HasEquals s e =
    let (x, y, e1, hx, (x2, y2, e2, h2, (x3, y3, e3, (c, is, e4), h3))) =
      matches→Lang param_regex s e in
    equals_in (x ++ x2) y3 (
      e1
      ∙ (ap (◌++◌ x) (
            e2
            ∙ ap (◌++◌ x2) (e3 ∙ (ap (λ b. b ++ y3) e4 ∙ ap (λ d. d ∷ y3) ((==_iff c b'=').0 is))))
          ∙ sym (append_assoc x x2 (b'=' ∷ y3))))

-- The key, the first equals sign and the value make up the line.
key-value :
    (x y : Bytes) → x ++ b'=' ∷ y ≡ key_of (x ++ b'=' ∷ y) ++ b'=' ∷ value_of (x ++ b'=' ∷ y)
unfolding key_of value_of
key-value [] y = refl
key-value (c ∷ x) y = elim (Bool-cases (c == b'=')) [
  | inl sign ↦ rw sign (ap (λ d. d ∷ (x ++ b'=' ∷ y)) ((==_iff c b'=').0 sign))
  | inr other ↦ rw other (ap (◌∷◌ c) (key-value x y))
]

pub key_of-IsText : (s : Bytes) → IsText s → IsText (key_of s)
unfolding key_of
key_of-IsText [] h = tt
key_of-IsText (c ∷ s) h = ground (arith, key_of-IsText s h.1)

pub value_of-IsText : (s : Bytes) → IsText s → IsText (value_of s)
unfolding value_of
value_of-IsText [] h = tt
value_of-IsText (c ∷ s) h = ground (arith, value_of-IsText s h.1)

find_equals-key_of :
    (x y rest : Bytes)
    → find_equals ((x ++ b'=' ∷ y) ++ rest) ≡ ok (length (key_of (x ++ b'=' ∷ y)))
unfolding find_equals key_of
find_equals-key_of [] y rest = refl
find_equals-key_of (c ∷ x) y rest = elim (Bool-cases (c == b'=')) [
  | inl sign ↦ rw sign refl
  | inr other ↦ rw (other, find_equals-key_of x y rest) refl
]

-- `getParam` gives the key of a setting, with no terminator behind it.
pub get_param-key_of : (s rest : Bytes) → HasEquals s → get_param (s ++ rest) ≡ ok (key_of s)
unfolding get_param
get_param-key_of s rest (equals_in x y e) =
    let k = key_of (x ++ b'=' ∷ y) in
    let v = value_of (x ++ b'=' ∷ y) in
    let split : (x ++ b'=' ∷ y) ++ rest ≡ k ++ b'=' ∷ (v ++ rest) =
      ap (λ l. l ++ rest) (key-value x y) ∙ append_assoc k (b'=' ∷ v) rest in
    rw e (
      bind-ok _ (find_equals-key_of x y rest) (
        bind-ok (λ b. ok b.0)
          (ap (read_block (length k)) split ∙ read_block-append k (b'=' ∷ (v ++ rest))) refl))

pub get_value-value_of :
    (s rest : Bytes) → HasEquals s → get_value (s ++ rest) ≡ ok (value_of s ++ rest)
unfolding get_value
get_value-value_of s rest (equals_in x y e) =
    let k = key_of (x ++ b'=' ∷ y) in
    let v = value_of (x ++ b'=' ∷ y) in
    let split : (x ++ b'=' ∷ y) ++ rest ≡ (k ++ b'=' ∷ []) ++ (v ++ rest) =
      ap (λ l. l ++ rest) (key-value x y)
      ∙ (append_assoc k (b'=' ∷ v) rest ∙ sym (append_assoc k (b'=' ∷ []) (v ++ rest))) in
    let size : suc (length k) ≡ length (k ++ b'=' ∷ []) =
      omega (arith, length-append k (b'=' ∷ [])) in
    rw e (
      bind-ok _ (find_equals-key_of x y rest) (
        bind-ok (λ b. ok b.1)
          (ap (read_block (suc (length k))) split
            ∙ (ap (λ n. read_block n ((k ++ b'=' ∷ []) ++ (v ++ rest))) size
                ∙ read_block-append (k ++ b'=' ∷ []) (v ++ rest)))
          refl))
