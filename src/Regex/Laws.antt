-- ===== src/Regex/Laws.antt =====
-- What it is to match, and that `matches` decides it.
use os_tp.Base.{
  ℕ, ◌≡◌, refl, sym, ap, ◌∙◌, subst, ◌⊎◌, inl, inr, true, [], ◌∷◌, ◌++◌, arith, Bytes, Bool-cases,
}
use os_tp.Regex.{Regex, nothing, empty, class, seq, alt, star, nullable, deriv, matches}

pub data Star (P : Bytes → Type 0) : Bytes → Type 0 where
  done : {s : Bytes} → s ≡ [] → Star P s
  more : {s : Bytes} (x y : Bytes) → s ≡ x ++ y → P x → Star P y → Star P s

abbrev pub Lang : Regex → Bytes → Type 0
Lang nothing s = ⊥
Lang empty s = s ≡ []
Lang (class p) s = (c : ℕ) × (p c ≡ true) × (s ≡ c ∷ [])
Lang (seq r t) s = (x : Bytes) × (y : Bytes) × (s ≡ x ++ y) × Lang r x × Lang t y
Lang (alt r t) s = Lang r s ⊎ Lang t s
Lang (star r) s = Star (Lang r) s

append-eq-nil : (x y : Bytes) → [] ≡ x ++ y → (x ≡ []) × (y ≡ [])
append-eq-nil [] y e = (refl, sym e)
append-eq-nil (c ∷ x) y e = cc

nullable→Lang : (r : Regex) → nullable r ≡ true → Lang r []
unfolding nullable
nullable→Lang nothing e = cc
nullable→Lang empty e = refl
nullable→Lang (class p) e = cc
nullable→Lang (seq r t) e =
    ([], [], refl, nullable→Lang r (ground arith), nullable→Lang t (ground arith))
nullable→Lang (alt r t) e = elim (Bool-cases (nullable r)) [
  | inl h ↦ inl (nullable→Lang r h)
  | inr h ↦ inr (nullable→Lang t (rw h at e))
]
nullable→Lang (star r) e = done refl

Lang→nullable : (r : Regex) → Lang r [] → nullable r ≡ true
unfolding nullable
Lang→nullable nothing h = elim h [ ]
Lang→nullable empty h = refl
Lang→nullable (class p) (c, a, e) = cc
Lang→nullable (seq r t) (x, y, e, hx, hy) =
    let (ex, ey) = append-eq-nil x y e in
    rw (Lang→nullable r (subst (Lang r) ex hx)) (Lang→nullable t (subst (Lang t) ey hy))
Lang→nullable (alt r t) (inl h) = rw (Lang→nullable r h) refl
Lang→nullable (alt r t) (inr h) = ground (arith, Lang→nullable t h)
Lang→nullable (star r) h = refl

head_eq : {a b : ℕ} {x y : Bytes} → a ∷ x ≡ b ∷ y → a ≡ b
head_eq e = cc

tail_eq : {a b : ℕ} {x y : Bytes} → a ∷ x ≡ b ∷ y → x ≡ y
tail_eq e = cc

-- The first byte of a repetition belongs to a match that is not empty.
Star-first :
    (P : Bytes → Type 0) (c : ℕ) {s z : Bytes}
    → Star P z
    → z ≡ c ∷ s
    → (x : Bytes) × (y : Bytes) × (s ≡ x ++ y) × P (c ∷ x) × Star P y
Star-first P c (done h) e = cc
Star-first P c (more [] y split here rest) e = Star-first P c rest (sym split ∙ e)
Star-first P c (more (d ∷ x) y split here rest) e =
    (x, y, tail_eq (sym e ∙ split), subst (λ b. P (b ∷ x)) (head_eq (sym split ∙ e)) here, rest)

deriv→Lang : (c : ℕ) (r : Regex) (s : Bytes) → Lang (deriv c r) s → Lang r (c ∷ s)
unfolding deriv
deriv→Lang c nothing s h = h
deriv→Lang c empty s h = elim h [ ]
deriv→Lang c (class p) s h = elim (Bool-cases (p c)) [
  | inl yes_p ↦ (c, yes_p, ap (◌∷◌ c) (rw yes_p at h))
  | inr no_p ↦ elim (rw no_p at h) [ ]
]
deriv→Lang c (alt r t) s (inl h) = inl (deriv→Lang c r s h)
deriv→Lang c (alt r t) s (inr h) = inr (deriv→Lang c t s h)
deriv→Lang c (star r) s (x, y, e, hx, hy) = more (c ∷ x) y (ap (◌∷◌ c) e) (deriv→Lang c r x hx) hy
deriv→Lang c (seq r t) s h = elim (Bool-cases (nullable r)) [
  | inl null ↦ elim (rw null at h) [
    | inl (x, y, e, hx, hy) ↦ (c ∷ x, y, ap (◌∷◌ c) e, deriv→Lang c r x hx, hy)
    | inr later ↦ ([], c ∷ s, refl, nullable→Lang r null, deriv→Lang c t s later)
  ]
  | inr other ↦
      let (x, y, e, hx, hy) = rw other at h in (c ∷ x, y, ap (◌∷◌ c) e, deriv→Lang c r x hx, hy)
]

Lang→deriv : (c : ℕ) (r : Regex) (s : Bytes) → Lang r (c ∷ s) → Lang (deriv c r) s
unfolding deriv
Lang→deriv c nothing s h = h
Lang→deriv c empty s h = cc
Lang→deriv c (class p) s (d, a, e) = rw (subst (λ b. p b ≡ true) (sym (head_eq e)) a) (tail_eq e)
Lang→deriv c (alt r t) s (inl h) = inl (Lang→deriv c r s h)
Lang→deriv c (alt r t) s (inr h) = inr (Lang→deriv c t s h)
Lang→deriv c (star r) s h =
    let (x, y, e, hx, hy) = Star-first (Lang r) c h refl in (x, y, e, Lang→deriv c r x hx, hy)
Lang→deriv c (seq r t) s ([], y, e, hx, hy) =
    rw (Lang→nullable r hx) (inr (Lang→deriv c t s (subst (Lang t) (sym e) hy)))
Lang→deriv c (seq r t) s (d ∷ x, y, e, hx, hy) =
    let first : Lang (seq (deriv c r) t) s =
      (x, y, tail_eq e, Lang→deriv c r x (subst (λ b. Lang r (b ∷ x)) (sym (head_eq e)) hx), hy) in
    elim (Bool-cases (nullable r)) [ inl null ↦ rw null (inl first) | inr other ↦ rw other first ]

-- `matches` is true just for the strings of the expression.
pub matches→Lang : (r : Regex) (s : Bytes) → matches r s ≡ true → Lang r s
unfolding matches
matches→Lang r [] e = nullable→Lang r e
matches→Lang r (c ∷ s) e = deriv→Lang c r s (matches→Lang (deriv c r) s e)

pub Lang→matches : (r : Regex) (s : Bytes) → Lang r s → matches r s ≡ true
unfolding matches
Lang→matches r [] h = Lang→nullable r h
Lang→matches r (c ∷ s) h = Lang→matches (deriv c r) s (Lang→deriv c r s h)
