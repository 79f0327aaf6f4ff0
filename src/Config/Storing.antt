-- ===== src/Config/Storing.antt =====
-- What q2Action to q5Action of common/config.c do, and a setting of q1Action with the call that stores it.
use os_tp.Base.{
  ℕ, suc, ◌≡◌, refl, inl, inr, Bool, false, none, some, [], ◌∷◌, ◌++◌, Bytes, ok, bind-ok,
  Bool-cases, Outcome,
}
use os_tp.Memory.Laws.{IsText}
use os_tp.Decimal.{codes}
use os_tp.Config.Lines.{File}
use os_tp.Config.Meaning.{equal, trim, key_of, value_of, set_key}
use os_tp.Config.Reading.{leading_trim-append}
use os_tp.Config.Steps.{setting_next, key_next}
use os_tp.Config.Settings.{value_of-IsText}
use os_tp.Config.{
  Config, State, q1, q2, q3, q4, q5, calls, store_action, action, run, move_to, move_loop, arcs,
  add_arcs, name, store,
}
use os_tp.Config.Syntax.{same_text}

data Stores : State → Type 0 where
  at_q2 : Stores q2
  at_q3 : Stores q3
  at_q4 : Stores q4
  at_q5 : Stores q5

moves_back : {actual : State} → Stores actual → move_to actual (name q1) ≡ ok q1
unfolding move_to move_loop arcs add_arcs same_text
moves_back at_q2 = refl
moves_back at_q3 = refl
moves_back at_q4 = refl
moves_back at_q5 = refl

store_action_lem :
    (behind l : Bytes) {actual : State} (fp : File) (config : Config)
    → Stores actual
    → IsText l
    → action behind actual (some (l ++ 0 ∷ [])) fp config
      ≡ ok (calls q1 none fp (store actual (trim l ++ 0 ∷ []) config))
unfolding action store_action
store_action_lem behind l fp config at_q2 h = rw (leading_trim-append l [] h, moves_back at_q2) refl
store_action_lem behind l fp config at_q3 h = rw (leading_trim-append l [] h, moves_back at_q3) refl
store_action_lem behind l fp config at_q4 h = rw (leading_trim-append l [] h, moves_back at_q4) refl
store_action_lem behind l fp config at_q5 h = rw (leading_trim-append l [] h, moves_back at_q5) refl

-- A setting that is known takes one more call.
run-store :
    (behind l : Bytes) {actual : State} (fp : File) (config : Config) (r : ℕ)
    (x : Outcome (Bool × Config))
    → Stores actual
    → IsText l
    → run r behind (calls q1 none fp (store actual (trim l ++ 0 ∷ []) config)) ≡ x
    → run (suc r) behind (calls actual (some (l ++ 0 ∷ [])) fp config) ≡ x
unfolding run
run-store behind l fp config r x at h later =
    bind-ok (run r behind) (store_action_lem behind l fp config at h) later

pub run-setting :
    (behind l : Bytes) (fp : File) (config : Config) (r : ℕ) (x : Outcome (Bool × Config))
    → IsText l
    → equal (key_of l) (codes "end") ≡ false
    → run r behind (calls q1 none fp (set_key l config)) ≡ x
    → run (suc r) behind (calls q1 none fp (set_key l config)) ≡ x
    → run (suc r) behind (setting_next (key_next (key_of l)) l fp config) ≡ x
unfolding set_key
run-setting behind l fp config r x h no_end known unknown =
    elim (Bool-cases (equal (key_of l) (codes "server"))) [
      | inl yes_2 ↦ rw yes_2 (
          run-store behind (value_of l) fp config r x at_q2 (value_of-IsText l h)
            (rw yes_2 at known))
      | inr no_2 ↦ elim (Bool-cases (equal (key_of l) (codes "listening port"))) [
        | inl yes_3 ↦
            rw (no_2, yes_3)
              (run-store behind (value_of l) fp config r x at_q3 (value_of-IsText l h)
                (rw (no_2, yes_3) at known))
        | inr no_3 ↦ elim (Bool-cases (equal (key_of l) (codes "database"))) [
          | inl yes_4 ↦
              rw (no_2, no_3, yes_4)
                (run-store behind (value_of l) fp config r x at_q4 (value_of-IsText l h)
                  (rw (no_2, no_3, yes_4) at known))
          | inr no_4 ↦ elim (Bool-cases (equal (key_of l) (codes "logging"))) [
            | inl yes_5 ↦
                rw (no_2, no_3, no_4, yes_5)
                  (run-store behind (value_of l) fp config r x at_q5 (value_of-IsText l h)
                    (rw (no_2, no_3, no_4, yes_5) at known))
            | inr no_5 ↦
                rw (no_2, no_3, no_4, no_5, no_end) (rw (no_2, no_3, no_4, no_5) at unknown)
          ]
        ]
      ]
    ]
