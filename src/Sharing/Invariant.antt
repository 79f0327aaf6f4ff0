-- ===== src/Sharing/Invariant.antt =====
-- The invariant of the processes that share the database connection: who is between locking the mutex
-- and releasing it.
use os_tp.Base.{
  ℕ, ◌≡◌, ◌≢◌, refl, sym, ap, ◌∙◌, inl, inr, Bool, true, false, ◌==◌, ==_iff, ==_refl, Bool-cases,
}
use os_tp.Sharing.{
  Phase, idle, entered, asked, heard, System, update, Step, open_conn, ask, write_fails,
  write_ignored, serve, hear, read_fails, read_ignored, close_conn, leave_locked, Steps, none_yet,
  then_one, fresh,
}

update-same : {A : Type 0} (f : ℕ → A) (i : ℕ) (a : A) → update f i a i ≡ a
unfolding update
update-same f i a = rw (==_refl i) refl

update-other : {A : Type 0} (f : ℕ → A) (i j : ℕ) (a : A) → (j == i) ≡ false → update f i a j ≡ f j
unfolding update
update-other f i j a e = rw e refl

pub true_not_false : ¬ (true ≡ false)
true_not_false e = cc

module _ {Q R D : Type 0} where
  pub not_busy :
      (s : System Q R D) (i : ℕ) {now : Phase Q R}
      → s.phases i ≡ now
      → now ≢ idle
      → ¬ (s.phases i ≡ idle)
  not_busy s i e busy waits = busy (sym e ∙ waits)

  -- A process that is idle stays so while another moves.
  pub update-idle :
      (s : System Q R D) (i j : ℕ) (p : Phase Q R) {now : Phase Q R}
      → s.phases i ≡ now
      → now ≢ idle
      → s.phases j ≡ idle
      → update s.phases i p j ≡ idle
  update-idle s i j p e busy waits = elim (Bool-cases (j == i)) [
    | inl same ↦ absurd (busy (sym e ∙ ap s.phases (sym ((==_iff j i).0 same)) ∙ waits))
    | inr differs ↦ update-other s.phases i j p differs ∙ waits
  ]

  pub data Safe (s : System Q R D) : Type 0 where
    quiet : ((j : ℕ) → s.phases j ≡ idle) → Safe s
    inside : (i : ℕ) → ((j : ℕ) → (j == i) ≡ false → s.phases j ≡ idle) → s.locked ≡ true → Safe s

  -- A process that is not idle holds the mutex, and all others are idle.
  pub owner :
      (s : System Q R D) (i : ℕ) {p : Phase Q R}
      → Safe s
      → s.phases i ≡ p
      → p ≢ idle
      → ((j : ℕ) → (j == i) ≡ false → s.phases j ≡ idle) × (s.locked ≡ true)
  owner s i (quiet all) e ne = absurd (ne (sym e ∙ all i))
  owner s i (inside k others locked) e ne = elim (Bool-cases (i == k)) [
    | inl same ↦
        let k_is : i ≡ k = (==_iff i k).0 same in
        (λ j differs. others j (ap (◌==◌ j) (sym k_is) ∙ differs), locked)
    | inr differs ↦ absurd (ne (sym e ∙ others i differs))
  ]

  -- The process i moves on.
  moved :
      (s t : System Q R D) (i : ℕ) (p : Phase Q R)
      → t.phases ≡ update s.phases i p
      → ((j : ℕ) → (j == i) ≡ false → s.phases j ≡ idle)
      → t.locked ≡ true
      → Safe t
  moved s t i p is others locked =
      inside i
        (λ j differs. ap (λ f. f j) is ∙ update-other s.phases i j p differs ∙ others j differs)
        locked

  -- The process i is done.
  done :
      (s t : System Q R D) (i : ℕ)
      → t.phases ≡ update s.phases i idle
      → ((j : ℕ) → (j == i) ≡ false → s.phases j ≡ idle)
      → Safe t
  done s t i is others = quiet (λ j. ap (λ f. f j) is ∙ elim (Bool-cases (j == i)) [
    | inl same ↦ rw ((==_iff j i).0 same) (update-same s.phases i idle)
    | inr differs ↦ update-other s.phases i j idle differs ∙ others j differs
  ])

module _ {Q R D : Type 0} (answer : Q → D → R × D) (keeps_lock : Q → R → Bool)
    (returns_locked : Q → Bool) where
  Step-Safe : {s t : System Q R D} → Step answer keeps_lock returns_locked s t → Safe s → Safe t
  Step-Safe (open_conn s i e free) (quiet all) = moved s _ i entered refl (λ j differs. all j) refl
  Step-Safe (open_conn s i e free) (inside k others locked) =
      absurd (true_not_false (sym locked ∙ free))
  Step-Safe (ask s i q e) safe =
      let (others, locked) = owner s i safe e (λ x. cc) in moved s _ i (asked q) refl others locked
  Step-Safe (write_fails s i q e h) safe =
      let (others, locked) = owner s i safe e (λ x. cc) in done s _ i refl others
  Step-Safe (write_ignored s i q e h) safe =
      let (others, locked) = owner s i safe e (λ x. cc) in moved s _ i (asked q) refl others locked
  Step-Safe (serve s q rest e) (quiet all) = quiet all
  Step-Safe (serve s q rest e) (inside k others locked) = inside k others locked
  Step-Safe (hear s i q r rest e here) safe =
      let (others, locked) = owner s i safe e (λ x. cc) in
      moved s _ i (heard q r) refl others locked
  Step-Safe (read_fails s i q e h) safe =
      let (others, locked) = owner s i safe e (λ x. cc) in done s _ i refl others
  Step-Safe (read_ignored s i q e h) safe =
      let (others, locked) = owner s i safe e (λ x. cc) in done s _ i refl others
  Step-Safe (close_conn s i q r e h) safe =
      let (others, locked) = owner s i safe e (λ x. cc) in done s _ i refl others
  Step-Safe (leave_locked s i q r e h) safe =
      let (others, locked) = owner s i safe e (λ x. cc) in done s _ i refl others

  pub Steps-Safe :
      {s t : System Q R D} → Steps answer keeps_lock returns_locked s t → Safe s → Safe t
  Steps-Safe none_yet safe = safe
  Steps-Safe (then_one before step) safe = Step-Safe step (Steps-Safe before safe)

  pub fresh-Safe : (db : D) → Safe {Q = Q} {R = R} (fresh db)
  fresh-Safe db = quiet (λ j. refl)

  -- While the mutex is locked, a process that is idle stays so.
  pub Step-idle :
      {s t : System Q R D} (j : ℕ)
      → Step answer keeps_lock returns_locked s t
      → s.locked ≡ true
      → s.phases j ≡ idle
      → t.phases j ≡ idle
  Step-idle j (open_conn s i e free) locked waits = absurd (true_not_false (sym locked ∙ free))
  Step-idle j (ask s i q e) locked waits = update-idle s i j (asked q) e (λ x. cc) waits
  Step-idle j (write_fails s i q e h) locked waits = update-idle s i j idle e (λ x. cc) waits
  Step-idle j (write_ignored s i q e h) locked waits = update-idle s i j (asked q) e (λ x. cc) waits
  Step-idle j (serve s q rest e) locked waits = waits
  Step-idle j (hear s i q r rest e here) locked waits =
      update-idle s i j (heard q r) e (λ x. cc) waits
  Step-idle j (read_fails s i q e h) locked waits = update-idle s i j idle e (λ x. cc) waits
  Step-idle j (read_ignored s i q e h) locked waits = update-idle s i j idle e (λ x. cc) waits
  Step-idle j (close_conn s i q r e h) locked waits = update-idle s i j idle e (λ x. cc) waits
  Step-idle j (leave_locked s i q r e h) locked waits = update-idle s i j idle e (λ x. cc) waits
