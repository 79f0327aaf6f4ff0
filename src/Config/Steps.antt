-- ===== src/Config/Steps.antt =====
-- What one call of an action of common/config.c does, by the line that it reads.
use os_tp.Config.Sections.{find_arc-cons, find_arc-nil, cleaned-IsText}
use os_tp.Base.{
  ◌≡◌, refl, inl, inr, Bool, true, false, Option, none, some, [], ◌∷◌, ◌++◌, Bytes, Outcome, ok,
  bind-ok, ◌>>=◌, Bool-cases, if◌then◌else◌,
}
use os_tp.Memory.Laws.{IsText, text_of-append, are_nonzero-IsText}
use os_tp.Decimal.{codes}
use os_tp.Config.Lines.{File}
use os_tp.Config.Meaning.{equal, first_line, cleaned, key_of, value_of}
use os_tp.Config.Reading.{read_line_lem, same_text-equal}
use os_tp.Config.Settings.{is_param-HasEquals, get_param-key_of, get_value-value_of, key_of-IsText}
use os_tp.Config.{
  Config, State, q0, q1, q2, q3, q4, q5, Next, returns, calls, Arc, create_arc, find_arc, add_arcs,
  arcs, move_to, move_loop, name, q1_found, q1_action,
}
use os_tp.Config.Syntax.{same_text, is_param, get_value, get_param}

-- Where the key of a setting leads, if anywhere.
abbrev pub key_next : Bytes → Option State
key_next k =
    if equal k (codes "server")
    then some q2
    else if equal k (codes "listening port")
    then some q3
    else if equal k (codes "database")
    then some q4
    else if equal k (codes "logging")
    then some q5
    else if equal k (codes "end")
    then some q0
    else none

abbrev pub setting_next : Option State → Bytes → File → Config → Next
setting_next none l fp config = calls q1 none fp config
setting_next (some next) l fp config = calls next (some (value_of l ++ 0 ∷ [])) fp config

abbrev pub q1_next : Bytes → File → Config → Next
q1_next l fp config =
    if equal l (codes "end")
    then calls q0 none fp config
    else if is_param l
    then setting_next (key_next (key_of l)) l fp config
    else if equal l []
    then calls q1 none fp config
    else returns false config

arcs-q1 :
    arcs q1
    ≡ some (create_arc (codes "server" ++ 0 ∷ []) q2)
      ∷ some (create_arc (codes "listening port" ++ 0 ∷ []) q3)
      ∷ some (create_arc (codes "database" ++ 0 ∷ []) q4)
      ∷ some (create_arc (codes "logging" ++ 0 ∷ []) q5)
      ∷ some (create_arc (codes "end" ++ 0 ∷ []) q0)
      ∷ []
unfolding arcs add_arcs
arcs-q1 = refl

goes_to :
    (tag l p : Bytes) (next : State) (fp : File) (config : Config)
    → get_value (l ++ 0 ∷ []) ≡ ok (value_of l ++ 0 ∷ [])
    → move_to q1 (name next) ≡ ok next
    → (b : Bool) (more : Outcome (Option Arc)) (other : Option State)
    → (more >>= (λ found. q1_found found (l ++ 0 ∷ []) fp config))
      ≡ ok (setting_next other l fp config)
    → ((if b then ok (some (create_arc tag next)) else more)
        >>= (λ found. q1_found found (l ++ 0 ∷ []) fp config))
      ≡ ok (setting_next (if b then some next else other) l fp config)
unfolding q1_found
goes_to tag l p next fp config value moved true more other h = rw (value, moved) refl
goes_to tag l p next fp config value moved false more other h = h

nowhere :
    (line : Bytes) (fp : File) (config : Config)
    → q1_found none line fp config ≡ ok (calls q1 none fp config)
unfolding q1_found
nowhere line fp config = refl

moves_to : (next : State) → (next ≡ q1 → ⊥) → move_to q1 (name next) ≡ ok next
unfolding move_to move_loop arcs add_arcs same_text
moves_to q0 h = refl
moves_to q1 h = absurd (h refl)
moves_to q2 h = refl
moves_to q3 h = refl
moves_to q4 h = refl
moves_to q5 h = refl

find-q1 :
    (k p l : Bytes) (fp : File) (config : Config)
    → IsText k
    → get_value (l ++ 0 ∷ []) ≡ ok (value_of l ++ 0 ∷ [])
    → (find_arc (arcs q1) (k ++ 0 ∷ p) >>= (λ found. q1_found found (l ++ 0 ∷ []) fp config))
      ≡ ok (setting_next (key_next k) l fp config)
find-q1 k p l fp config h value =
    rw
      (
        arcs-q1,
        find_arc-cons k (codes "server") p q2 _ h (are_nonzero-IsText (codes "server") refl),
        find_arc-cons k (codes "listening port") p q3 _ h
            (are_nonzero-IsText (codes "listening port") refl),
        find_arc-cons k (codes "database") p q4 _ h (are_nonzero-IsText (codes "database") refl),
        find_arc-cons k (codes "logging") p q5 _ h (are_nonzero-IsText (codes "logging") refl),
        find_arc-cons k (codes "end") p q0 _ h (are_nonzero-IsText (codes "end") refl),
        find_arc-nil,
      )
      (goes_to _ l p q2 fp config value (moves_to q2 (λ e. cc)) (equal k (codes "server")) _ _ (
        goes_to _ l p q3 fp config value (moves_to q3 (λ e. cc)) (equal k (codes "listening port"))
          _ _
          (goes_to _ l p q4 fp config value (moves_to q4 (λ e. cc)) (equal k (codes "database")) _ _
            (goes_to _ l p q5 fp config value (moves_to q5 (λ e. cc)) (equal k (codes "logging")) _
              _
              (goes_to _ l p q0 fp config value (moves_to q0 (λ e. cc)) (equal k (codes "end"))
                (ok none) none (nowhere (l ++ 0 ∷ []) fp config))))))

-- The case of `q1Action` that a line is a setting; the key needs a terminator behind its block.
setting :
    (l behind : Bytes) (fp : File) (config : Config)
    → IsText l
    → is_param l ≡ true
    → (get_param (l ++ 0 ∷ []) >>= (λ param.
        find_arc (arcs q1) (param ++ 0 ∷ behind)
        >>= (λ found. q1_found found (l ++ 0 ∷ []) fp config)))
      ≡ ok (setting_next (key_next (key_of l)) l fp config)
setting l behind fp config h param =
    let has = is_param-HasEquals l param in
    bind-ok _ (get_param-key_of l (0 ∷ []) has) (
      find-q1 (key_of l) behind l fp config (key_of-IsText l h) (get_value-value_of l (0 ∷ []) has))

pub q1_action_lem :
    (behind s : Bytes) (config : Config)
    → q1_action (0 ∷ behind) (record { content = s; at_end = false }) config
      ≡ ok (q1_next (cleaned (first_line s).0) (first_line s).1 config)
unfolding q1_action
q1_action_lem behind s config =
    let l = cleaned (first_line s).0 in
    let rest = (first_line s).1 in
    let is_text = cleaned-IsText (first_line s).0 in
    bind-ok _ (read_line_lem (record { content = s; at_end = false })) (
      bind-ok _ (text_of-append l [] is_text) (
        bind-ok _
          (same_text-equal l (codes "end") [] [] is_text (are_nonzero-IsText (codes "end") refl))
          (elim (Bool-cases (equal l (codes "end"))) [
            | inl ends ↦ rw (ends, moves_to q0 (λ e. cc)) refl
            | inr goes ↦ elim (Bool-cases (is_param l)) [
              | inl param ↦ rw (goes, param) (setting l behind rest config is_text param)
              | inr other ↦ rw (goes, other, same_text-equal l [] [] [] is_text tt) refl
            ]
          ])))
