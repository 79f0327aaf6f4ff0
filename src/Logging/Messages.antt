-- ===== src/Logging/Messages.antt =====
-- What the daemon prints of a message that was logged.
use os_tp.Decimal.{codes}
use os_tp.Base.{
  ℕ, suc, ◌+◌, ◌-◌, ◌<◌, ◌≡◌, ◌≢◌, refl, sym, ap, ◌∙◌, Bool, true, false, Option, some, ◌∷◌, ◌++◌,
  append_assoc, arith, Bytes, length, length-append, replicate, ok, fault, bind-ok, if◌then◌else◌,
  All-append, ℤ,
}
use os_tp.Memory.{malloc_from, strncpy, strncpy_bytes, text_of}
use os_tp.Memory.Laws.{
  IsText, memcpy-malloc, length-replicate, strncpy_bytes-padded, strncpy_bytes-cut,
  text_of-unterminated, text_of-append, malloc_from_one,
}
use os_tp.Logging.{
  LogLevel, info, warning, error, level_number, Queue, fill_message, after_send, log_message,
  pretty_print_message,
}

-- A message that its array holds arrives with its terminator.
fill_message-text :
    (junk : ℕ → ℕ) (text rest : Bytes)
    → IsText text
    → length text < 255
    → (padding : Bytes) × (fill_message junk (text ++ 0 ∷ rest) ≡ ok (text ++ 0 ∷ padding))
unfolding fill_message strncpy
fill_message-text junk text rest h short =
    let k : ℕ = 254 - length text in
    let size : 255 ≡ length text + suc k = omega (arith, short) in
    let padded : strncpy_bytes (text ++ 0 ∷ rest) 255 ≡ ok (text ++ 0 ∷ replicate k 0) =
      ap (strncpy_bytes (text ++ 0 ∷ rest)) size ∙ strncpy_bytes-padded text rest k h in
    let filled =
      memcpy-malloc junk (text ++ 0 ∷ replicate k 0) 255 1
        (omega (arith, short, length-append text (0 ∷ replicate k 0), length-replicate k)) in
    (
      replicate k 0 ++ malloc_from junk 255 1,
      bind-ok _ padded
          (filled ∙ ap ok (append_assoc text (0 ∷ replicate k 0) (malloc_from junk 255 1))),
    )

-- A longer one fills the array but for its last byte, which is not written.
fill_message-cut :
    (junk : ℕ → ℕ) (front rest : Bytes)
    → IsText front
    → length front ≡ 255
    → fill_message junk (front ++ rest) ≡ ok (front ++ malloc_from junk 255 1)
unfolding fill_message strncpy
fill_message-cut junk front rest h full =
    bind-ok _ (ap (strncpy_bytes (front ++ rest)) (sym full) ∙ strncpy_bytes-cut front rest h)
      (memcpy-malloc junk front 255 1 full)

abbrev pub level_text : LogLevel → Bytes
level_text info = codes "INFO"
level_text warning = codes "WARNING"
level_text error = codes "ERROR"

pretty_print_message-level :
    (lvl : LogLevel) (msg text : Bytes)
    → text_of msg ≡ ok text
    → pretty_print_message (level_number lvl, msg) ≡ ok (level_text lvl, text)
unfolding pretty_print_message
pretty_print_message-level info msg text e = rw e refl
pretty_print_message-level warning msg text e = rw e refl
pretty_print_message-level error msg text e = rw e refl

pretty_print_message-fault :
    (lvl : LogLevel) (msg : Bytes)
    → text_of msg ≡ fault
    → pretty_print_message (level_number lvl, msg) ≡ fault
unfolding pretty_print_message
pretty_print_message-fault info msg e = rw e refl
pretty_print_message-fault warning msg e = rw e refl
pretty_print_message-fault error msg e = rw e refl

module _ {World : Type 0} (Q : Queue World) where
  log_message-sends :
      (junk : ℕ → ℕ) (message msg : Bytes) (lvl : LogLevel) (id : ℕ) (w : World)
      → fill_message junk message ≡ ok msg
      → log_message Q junk message lvl (w, some id)
        ≡ after_send Q
            (level_number lvl)
            msg
            (Q.msgsnd id (level_number lvl) msg w).0
            ((Q.msgsnd id (level_number lvl) msg w).1, some id)
  unfolding log_message
  log_message-sends junk message msg lvl id w filled = rw filled refl

  after_send-text :
      (lvl : ℤ) (msg text : Bytes) (sent : Bool) (w : World) (id : Option ℕ)
      → text_of msg ≡ ok text
      → after_send Q lvl msg sent (w, id)
        ≡ (if sent then ok (true, (w, id)) else ok (false, (Q.printf lvl text w, id)))
  unfolding after_send
  after_send-text lvl msg text true w id e = refl
  after_send-text lvl msg text false w id e = rw e refl

  after_send-fault :
      (lvl : ℤ) (msg : Bytes) (sent : Bool) (w : World) (id : Option ℕ)
      → text_of msg ≡ fault
      → after_send Q lvl msg sent (w, id) ≡ (if sent then ok (true, (w, id)) else fault)
  unfolding after_send
  after_send-fault lvl msg true w id e = refl
  after_send-fault lvl msg false w id e = rw e refl

-- A message of less than 255 bytes, logged over a queue that is connected, is given to the queue in
-- an array from which the daemon prints the level's name and just that message; where the queue
-- does not take it, the logger prints the level and just that message itself. The array's memory
-- may hold anything before.
pub log_message-text :
    {World : Type 0} (Q : Queue World) (junk : ℕ → ℕ) (text rest : Bytes) (lvl : LogLevel) (id : ℕ)
    (w : World)
    → IsText text
    → length text < 255
    → (msg : Bytes) × (log_message Q junk (text ++ 0 ∷ rest) lvl (w, some id) ≡ (
        if (Q.msgsnd id (level_number lvl) msg w).0
        then ok (true, ((Q.msgsnd id (level_number lvl) msg w).1, some id))
        else ok (
          false,
          (Q.printf (level_number lvl) text (Q.msgsnd id (level_number lvl) msg w).1, some id),
        )))
      × (pretty_print_message (level_number lvl, msg) ≡ ok (level_text lvl, text))
log_message-text Q junk text rest lvl id w h short =
    let (padding, filled) = fill_message-text junk text rest h short in
    (
      text ++ 0 ∷ padding,
      log_message-sends Q junk (text ++ 0 ∷ rest) (text ++ 0 ∷ padding) lvl id w filled
          ∙ after_send-text Q (level_number lvl) (text ++ 0 ∷ padding) text _ _ (some id)
              (text_of-append text padding h),
      pretty_print_message-level lvl (text ++ 0 ∷ padding) text (text_of-append text padding h),
    )

-- A message of 255 bytes or more is given to the queue in an array whose last byte was never
-- written: unless that byte happens to be 0, the daemon that prints it reads past the array, and so
-- does the logger itself where the queue does not take the message.
pub log_message-fault :
    {World : Type 0} (Q : Queue World) (junk : ℕ → ℕ) (front rest : Bytes) (lvl : LogLevel) (id : ℕ)
    (w : World)
    → IsText front
    → length front ≡ 255
    → junk 255 ≢ 0
    → (msg : Bytes) × (log_message Q junk (front ++ rest) lvl (w, some id) ≡ (
        if (Q.msgsnd id (level_number lvl) msg w).0
        then ok (true, ((Q.msgsnd id (level_number lvl) msg w).1, some id))
        else fault))
      × (pretty_print_message (level_number lvl, msg) ≡ fault)
log_message-fault Q junk front rest lvl id w h full odd =
    let msg : Bytes = front ++ malloc_from junk 255 1 in
    let open_ended : text_of msg ≡ fault =
      text_of-unterminated msg
        (All-append _ front (malloc_from junk 255 1) h (malloc_from_one junk 255 odd)) in
    (
      msg,
      log_message-sends Q junk (front ++ rest) msg lvl id w
            (fill_message-cut junk front rest h full)
          ∙ after_send-fault Q (level_number lvl) msg _ _ (some id) open_ended,
      pretty_print_message-fault lvl msg open_ended,
    )
