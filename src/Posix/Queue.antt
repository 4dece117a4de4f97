-- ===== src/Posix/Queue.antt =====
-- targets/posix/os_queue.cc: message queues over RingPthread, and struct pos_queue of
-- poski/osal/os_types.h.
pub mod Laws
pub mod Clients
pub mod Contract
use poski.Base.{ℕ, ◌≡◌, Bool, Option, none, some, List, ◌==◌, Outcome, done, undefined, ◌>>=◌}
use poski.Ring.{Ring}
use poski.RingPthread
use poski.Osal.ErrorCode.{PosError, ok, timeout}

-- A callback and its argument are numbers; `none` is a null pointer.
pub record Queue : Type 0 where
  pub q : Option Ring
  pub sig_cb : Option ℕ
  pub sig_arg : ℕ

-- The object that `q` points to; a call through null is undefined.
abbrev pub deref : Option Ring → Outcome Ring
deref none = undefined
deref (some r) = done r

-- `new` does not return null.
unfoldable pub pos_queue_init : (ℕ → List ℕ) → ℕ → ℕ → Outcome (PosError × Queue)
pos_queue_init new_bytes msg_size max_msgs = do
  r ← RingPthread.init new_bytes msg_size max_msgs
  done (ok, record { q = some r; sig_cb = none; sig_arg = 0 })

unfoldable pub pos_queue_set_signal_cb : Queue → Option ℕ → ℕ → Queue
pos_queue_set_signal_cb msgq signal_cb arg = record msgq { sig_cb = signal_cb; sig_arg = arg }

unfoldable pub pos_queue_is_empty : Queue → Outcome Bool
pos_queue_is_empty msgq = do r ← deref msgq.q; done (RingPthread.size r == 0)

unfoldable pub pos_queue_inited : Queue → ℕ
pos_queue_inited msgq = elim msgq.q [ none ↦ 0 | some _ ↦ 1 ]

-- With the call of the signal callback that it makes, if one is set.
unfoldable pub pos_queue_put : Queue → List ℕ → Outcome (PosError × Queue × Option (ℕ × ℕ))
pos_queue_put msgq item = do
  r ← deref msgq.q
  r' ← RingPthread.put r item
  done (
    ok,
    record msgq { q = some r' },
    elim msgq.sig_cb [ none ↦ none | some cb ↦ some (cb, msgq.sig_arg) ],
  )

-- With the message that it copies to the caller.
unfoldable pub pos_queue_get : Queue → ℕ → Outcome (PosError × Queue × Option (List ℕ))
pos_queue_get msgq tmo = do
  r ← deref msgq.q
  p ← RingPthread.get r tmo
  done (elim p.0 [ none ↦ timeout | some _ ↦ ok ], record msgq { q = some p.1 }, p.0)

-- With the object that it deletes; the outer `none` is a null `msgq`.
unfoldable pub pos_queue_deinit : Option Queue → PosError × Option Queue × Option Ring
pos_queue_deinit none = (ok, none, none)
pos_queue_deinit (some msgq) = (ok, some (record msgq { q = none }), msgq.q)
