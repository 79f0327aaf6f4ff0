-- ===== src/Logging.antt =====
-- logging/logging.c and logging/loggingDaemon.c: messages that go to a System V queue, and the daemon
-- that prints them.
pub mod Messages
use os_tp.Base.{
  ℕ, zero, suc, Bool, true, false, Option, none, some, List, [], ◌∷◌, ◌++◌, Bytes, get_elem?, ℤ,
  pos, negsuc, Outcome, ok, fault, blocked, ◌==◌, if◌then◌else◌,
}
use os_tp.Base
use os_tp.Io.{Io, ◌>>=◌, pure, lift}
use os_tp.Memory.{malloc, strncpy, text_of}
use os_tp.Decimal.{codes}

-- The levels that `log_info`, `log_warn` and `log_err` give.
pub data LogLevel : Type 0 where
  info warning error : LogLevel

-- `(long) lvl`.
abbrev pub level_number : LogLevel → ℤ
level_number info = pos 1
level_number warning = pos 2
level_number error = pos 3

abbrev pub sigint : ℕ
sigint = 2

-- `sizeof(msg.msg)`.
abbrev pub message_size : ℕ
message_size = 256

-- The calls on the queue: `msgget` with the key, none for -1; `msgsnd` without waiting, true where it
-- succeeds; `msgrcv`, none for -1; printing a level and a text; and removing the queue.
pub record Queue (World : Type 0) : Type 0 where
  pub msgget : World → Option ℕ × World
  pub msgsnd : ℕ → ℤ → Bytes → World → Bool × World
  pub msgrcv : ℕ → World → Option (ℤ × Bytes) × World
  pub printf : ℤ → Bytes → World → World
  pub msgctl_remove : ℕ → World → Bool × World

-- `message_t msg` on the stack, with the message copied into its array.
unfoldable pub fill_message : (ℕ → ℕ) → Bytes → Outcome Bytes
fill_message junk message = strncpy (malloc junk message_size) message 255

module _ {World : Type 0} (Q : Queue World) where
  -- The world, and the variable `msqid`.
  unfoldable pub connect_to_msg_queue : Io (World × Option ℕ) (Unit {0})
  connect_to_msg_queue (w, id) = ok (tt, ((Q.msgget w).1, (Q.msgget w).0))

  abbrev print_message : ℤ → Bytes → Io (World × Option ℕ) (Unit {0})
  print_message lvl message (w, id) =
      Base.◌>>=◌ (text_of message) (λ text. ok (tt, (Q.printf lvl text w, id)))

  -- A message that the queue did not take is printed.
  unfoldable pub after_send : ℤ → Bytes → Bool → Io (World × Option ℕ) Bool
  after_send lvl msg true = pure true
  after_send lvl msg false = do printed ← print_message lvl msg; pure false

  unfoldable pub send_message : (ℕ → ℕ) → Bytes → LogLevel → ℕ → Io (World × Option ℕ) Bool
  unfolding fill_message after_send
  send_message junk message lvl id = do
    msg ← lift (fill_message junk message)
    sent ← (λ w. ok (
      (Q.msgsnd id (level_number lvl) msg w.0).0,
      ((Q.msgsnd id (level_number lvl) msg w.0).1, w.1),
    ))
    after_send (level_number lvl) msg sent

  -- Without a queue the message is printed, for -1.
  unfoldable pub send_or_print : (ℕ → ℕ) → Bytes → LogLevel → Option ℕ → Io (World × Option ℕ) Bool
  unfolding send_message
  send_or_print junk message lvl (some id) = send_message junk message lvl id
  send_or_print junk message lvl none = do
    printed ← print_message (level_number lvl) message
    pure false

  -- True for 1, and false for -1.
  unfoldable pub log_message : (ℕ → ℕ) → Bytes → LogLevel → Io (World × Option ℕ) Bool
  unfolding connect_to_msg_queue send_or_print
  log_message junk message lvl (w, some id) = send_or_print junk message lvl (some id) (w, some id)
  log_message junk message lvl (w, none) =
      Base.◌>>=◌ (connect_to_msg_queue (w, none)) (λ r. send_or_print junk message lvl r.1.1 r.1)

  unfoldable pub log_info : (ℕ → ℕ) → Bytes → Io (World × Option ℕ) Bool
  unfolding log_message
  log_info junk msg = log_message junk msg info

  unfoldable pub log_warn : (ℕ → ℕ) → Bytes → Io (World × Option ℕ) Bool
  unfolding log_message
  log_warn junk msg = log_message junk msg warning

  unfoldable pub log_err : (ℕ → ℕ) → Bytes → Io (World × Option ℕ) Bool
  unfolding log_message
  log_err junk msg = log_message junk msg error

-- The daemon.
abbrev pub level_names : List Bytes
level_names = codes "INFO" ∷ codes "WARNING" ∷ codes "ERROR" ∷ []

-- `LevelNames[m.lvl-1]`.
abbrev pub level_name : ℤ → Outcome Bytes
level_name (pos (suc n)) = elim (get_elem? level_names n) [ none ↦ fault | some s ↦ ok s ]
level_name (pos zero) = fault
level_name (negsuc n) = fault

-- The two strings that are printed.
unfoldable pub pretty_print_message : ℤ × Bytes → Outcome (Bytes × Bytes)
pretty_print_message (lvl, msg) =
    Base.◌>>=◌ (level_name lvl) (λ name. Base.◌>>=◌ (text_of msg) (λ text. ok (name, text)))

-- The loop of the daemon's main, with the rounds that it may run, and what it prints; it ends when
-- `msgrcv` fails.
unfoldable pub receive_loop :
    {World : Type 0} → Queue World → ℕ → ℕ → World → Outcome (List (Bytes × Bytes) × World)
unfolding pretty_print_message
receive_loop Q zero msqid w = blocked
receive_loop Q (suc turns) msqid w = elim ((Q.msgrcv msqid w).0) [
  | none ↦ ok ([], (Q.msgrcv msqid w).1)
  | some m ↦ Base.◌>>=◌ (pretty_print_message m) (λ line.
      Base.◌>>=◌ (receive_loop Q turns msqid (Q.msgrcv msqid w).1) (λ r. ok (line ∷ r.0, r.1)))
]

-- main of the daemon: what it printed and its exit code, 1 in either case.
unfoldable pub daemon_main :
    {World : Type 0} → Queue World → ℕ → World → Outcome ((List (Bytes × Bytes) × ℕ) × World)
unfolding receive_loop
daemon_main Q turns w = elim ((Q.msgget w).0) [
  | none ↦ ok (([], 1), (Q.msgget w).1)
  | some id ↦ Base.◌>>=◌ (receive_loop Q turns id (Q.msgget w).1) (λ r. ok ((r.0, 1), r.1))
]

-- The handler of SIGINT: the exit code, none where it returns.
unfoldable pub msgqueue_cleanup : {World : Type 0} → Queue World → ℕ → ℕ → World → Option ℕ × World
msgqueue_cleanup Q msqid signo w =
    if signo == sigint
    then (some (if (Q.msgctl_remove msqid w).0 then 0 else 1), (Q.msgctl_remove msqid w).1)
    else (none, w)
