-- ===== src/Config/Sections.antt =====
-- What one call of q0Action of common/config.c does, by the line that it reads.
use os_tp.Base.{
  ◌≡◌, refl, ap, ◌∙◌, inl, inr, Bool, true, false, Option, none, some, List, [], ◌∷◌, ◌++◌, arith,
  Bytes, ok, bind-ok, ◌>>=◌, Bool-cases, if◌then◌else◌, ==_iff, ◌==◌,
}
use os_tp.Memory.Laws.{IsText, text_of-append, are_nonzero-IsText}
use os_tp.Decimal.{codes}
use os_tp.Regex.{matches, nullable, deriv}
use os_tp.Config.Lines.{File}
use os_tp.Config.Meaning.{equal, up_to_zero, first_line, cleaned}
use os_tp.Config.Reading.{up_to_zero-IsText, trim-IsText, read_line_lem, same_text-equal}
use os_tp.Config.{
  Config, State, q0, q1, Next, returns, calls, Arc, create_arc, find_arc, add_arcs, arcs, move_to,
  move_loop, q0_found, q0_action,
}
use os_tp.Config.Syntax.{same_text, section_regex, is_section_tag}

pub equal→≡ : (s t : Bytes) → equal s t ≡ true → s ≡ t
equal→≡ [] [] h = refl
equal→≡ [] (d ∷ t) h = cc
equal→≡ (c ∷ s) [] h = cc
equal→≡ (c ∷ s) (d ∷ t) h = elim (Bool-cases (c == d)) [
  | inl same ↦ rw ((==_iff c d).0 same, equal→≡ s t (rw same at h)) refl
  | inr other ↦ absurd (ground (arith, h, other))
]

pub cleaned-IsText : (s : Bytes) → IsText (cleaned s)
cleaned-IsText s = trim-IsText (up_to_zero s) (up_to_zero-IsText s)

-- One arc of the searches.
pub find_arc-cons :
    (k tag p : Bytes) (next : State) (arcs : List (Option Arc))
    → IsText k
    → IsText tag
    → find_arc (some (create_arc (tag ++ 0 ∷ []) next) ∷ arcs) (k ++ 0 ∷ p) ≡ (
        if equal k tag
        then ok (some (create_arc (tag ++ 0 ∷ []) next))
        else find_arc arcs (k ++ 0 ∷ p))
unfolding find_arc
find_arc-cons k tag p next arcs h t = rw (same_text-equal k tag p [] h t) refl

pub find_arc-nil : (line : Bytes) → find_arc [] line ≡ ok none
unfolding find_arc
find_arc-nil line = refl

abbrev pub q0_next : Bytes → File → Config → Next
q0_next l fp config =
    if equal l (codes "[addresses]")
    then calls q1 none fp config
    else if equal l []
    then calls q0 none fp config
    else returns false config

addresses-is_section_tag : is_section_tag (codes "[addresses]") ≡ true
unfolding is_section_tag section_regex matches nullable deriv
addresses-is_section_tag = refl

nil-is_section_tag : is_section_tag [] ≡ false
unfolding is_section_tag section_regex matches nullable deriv
nil-is_section_tag = refl

arcs-q0 : arcs q0 ≡ some (create_arc (codes "[addresses]" ++ 0 ∷ []) q1) ∷ []
unfolding arcs add_arcs
arcs-q0 = refl

moves :
    (b : Bool) (fp : File) (config : Config)
    → ((if b then ok (some (create_arc (codes "[addresses]" ++ 0 ∷ []) q1)) else ok none)
        >>= (λ found. q0_found found fp config))
      ≡ ok (if b then calls q1 none fp config else returns false config)
unfolding q0_found move_to move_loop arcs add_arcs same_text
moves true fp config = refl
moves false fp config = refl

find-q0 :
    (l p : Bytes) (fp : File) (config : Config)
    → IsText l
    → (find_arc (arcs q0) (l ++ 0 ∷ p) >>= (λ found. q0_found found fp config))
      ≡ ok (if equal l (codes "[addresses]") then calls q1 none fp config else returns false config)
find-q0 l p fp config h =
    rw
      (
        arcs-q0,
        find_arc-cons l (codes "[addresses]") p q1 [] h
            (are_nonzero-IsText (codes "[addresses]") refl),
        find_arc-nil,
      )
      (moves (equal l (codes "[addresses]")) fp config)

-- A section's tag is not empty, and "[addresses]" is one.
tag_next :
    (l : Bytes) (fp : File) (config : Config)
    → is_section_tag l ≡ true
    → (if equal l (codes "[addresses]") then calls q1 none fp config else returns false config)
      ≡ q0_next l fp config
tag_next [] fp config tag = absurd (cc (tag, nil-is_section_tag))
tag_next (c ∷ l) fp config tag = refl

other_next :
    (l : Bytes) (fp : File) (config : Config)
    → is_section_tag l ≡ false
    → (if equal l [] then calls q0 none fp config else returns false config) ≡ q0_next l fp config
other_next l fp config other = elim (Bool-cases (equal l (codes "[addresses]"))) [
  | inl same ↦ absurd (
      cc
        (ap is_section_tag (equal→≡ l (codes "[addresses]") same), other, addresses-is_section_tag))
  | inr differs ↦ rw differs refl
]

pub q0_action_lem :
    (s : Bytes) (config : Config)
    → q0_action (record { content = s; at_end = false }) config
      ≡ ok (q0_next (cleaned (first_line s).0) (first_line s).1 config)
unfolding q0_action
q0_action_lem s config =
    let l = cleaned (first_line s).0 in
    let rest = (first_line s).1 in
    let is_text = cleaned-IsText (first_line s).0 in
    bind-ok _ (read_line_lem (record { content = s; at_end = false })) (
      bind-ok _ (text_of-append l [] is_text) (elim (Bool-cases (is_section_tag l)) [
        | inl tag ↦ rw tag (find-q0 l [] rest config is_text ∙ ap ok (tag_next l rest config tag))
        | inr other ↦ rw other (
            bind-ok _ (same_text-equal l [] [] [] is_text tt)
              (ap ok (other_next l rest config other)))
      ]))
