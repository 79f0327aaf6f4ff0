-- ===== src/Tests/Logging.antt =====
-- Logging over a queue that takes every message.
use os_tp.Base.{
  ℕ, ◌≡◌, refl, true, false, some, [], ◌∷◌, ◌++◌, arith, Bytes, ok, fault, pos, if◌then◌else◌,
  replicate,
}
use os_tp.Decimal.{codes}
use os_tp.Memory.Laws.{are_nonzero-IsText}
use os_tp.Logging.{warning, level_number, Queue, log_message, pretty_print_message}
use os_tp.Logging.Messages.{level_text, log_message-text, log_message-fault}

abbrev queue : Queue Bytes
queue = record {
  msgget = λ w. (some 3, w);
  msgsnd = λ id lvl msg w. (true, w ++ msg);
  msgrcv = λ id w. (some (pos 1, w), []);
  printf = λ lvl text w. w ++ text;
  msgctl_remove = λ id w. (true, []);
}

abbrev stale : ℕ → ℕ
stale i = 65

abbrev hello : Bytes
hello = codes "hello"

log_message-text_example :
    (msg : Bytes) × (log_message queue stale (hello ++ 0 ∷ 9 ∷ []) warning ([], some 3) ≡ (
      if (queue.msgsnd 3 (level_number warning) msg []).0
      then ok (true, ((queue.msgsnd 3 (level_number warning) msg []).1, some 3))
      else ok (
        false,
        (
          queue.printf
              (level_number warning)
              hello
              (queue.msgsnd 3 (level_number warning) msg []).1,
          some 3,
        ),
      )))
    × (pretty_print_message (level_number warning, msg) ≡ ok (level_text warning, hello))
log_message-text_example =
    log_message-text queue stale hello (9 ∷ []) warning 3 [] (are_nonzero-IsText hello refl)
      (omega arith)

abbrev long_text : Bytes
long_text = replicate 255 66

log_message-fault_example :
    (msg : Bytes) × (log_message queue stale (long_text ++ 0 ∷ []) warning ([], some 3) ≡ (
      if (queue.msgsnd 3 (level_number warning) msg []).0
      then ok (true, ((queue.msgsnd 3 (level_number warning) msg []).1, some 3))
      else fault))
    × (pretty_print_message (level_number warning, msg) ≡ fault)
log_message-fault_example =
    log_message-fault queue stale long_text (0 ∷ []) warning 3 []
      (are_nonzero-IsText long_text refl) refl (λ e. absurd (omega arith))
