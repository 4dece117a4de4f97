-- ===== src/Ports/Tests.antt =====
-- A queue of two messages of two bytes in each of the four ports, and an OsQueue of the POSIX port.
mod Timers
use poski.Base.{
  ℕ, ◌+◌, ◌^◌, ◌<◌, ◌≡◌, refl, sym, subst, ◌==ℤ◌, Bool, true, false, Option, none, some, List, [],
  ◌∷◌, ◌++◌, length, length-replicate, replicate, arith, ltb, ℤ, pos, negsuc, if◌then◌else◌,
  Outcome, done, ◌>>=◌, u16,
}
use poski.Ring.{Ring, size}
use poski.Ring.Create.{fresh, fresh-IsValid}
use poski.Osal.ErrorCode.{PosError, ok}
use poski.Osal.Queue.{Op, puts, gets, Fits, answers, all_ok, run, observed}
use poski.Posix.Queue.{Queue}
use poski.Posix.Queue.Contract as Posix
use poski.Freertos.Tests.Queues as FreertosKernel
use poski.Freertos.Queue.Contract as Freertos
use poski.RtThread.Queue.{QueueApi}
use poski.RtThread.Queue.Laws as Rt
use poski.Zephyr.Queue as ZephyrQueue
use poski.Zephyr.Tests.Queues as ZephyrKernel
use poski.Zephyr.Queue.Contract as Zephyr
use poski.Wrapper.OsQueue.{OsQueue, init, push, pop}
use poski.Wrapper.OsQueue.Contract.{posix_native, init_posix-answers}
use poski.Ports.{posix-freertos-rt_thread-zephyr}

record Kernel : Type 0 where
  items : List (List ℕ)
  room : ℕ

abbrev recv : Kernel → ℤ × Option (List ℕ) × Kernel
recv s = elim s.items [
  | [] ↦ (negsuc 1, none, s)
  | m ∷ ms ↦ (pos 0, some m, record s { items = ms })
]

abbrev send : List ℕ → Kernel → ℤ × Kernel
send m s =
    if ltb (length s.items) s.room
    then (pos 0, record s { items = s.items ++ m ∷ [] })
    else (negsuc 2, s)

ltb-lt : (m n : ℕ) → m < n → ltb m n ≡ true
ltb-lt m n h = ground arith

ltb-same : (m n : ℕ) → m ≡ n → ltb m n ≡ false
ltb-same m n h = ground arith

recv_message :
    (s : Kernel) (m : List ℕ) (ms : List (List ℕ))
    → s.items ≡ m ∷ ms
    → (s' : Kernel) × (◌≡◌ {A = Outcome (ℤ × Option (List ℕ) × Kernel)}
        (done (recv s))
        (done (pos 0, some m, s')))
      × (s'.items ≡ ms)
      × (s'.room ≡ s.room)
recv_message s m ms e = (record s { items = ms }, rw e refl, refl, refl)

recv_empty :
    (s : Kernel)
    → s.items ≡ []
    → (s' : Kernel) × (◌≡◌ {A = Outcome (ℤ × Option (List ℕ) × Kernel)}
        (done (recv s))
        (done (negsuc 1, none, s')))
      × (s'.items ≡ [])
recv_empty s e = (s, rw e refl, e)

send_room :
    (m : List ℕ) (s : Kernel)
    → length s.items < s.room
    → ((send m s).0 ≡ pos 0)
      × ((send m s).1.items ≡ s.items ++ m ∷ [])
      × ((send m s).1.room ≡ s.room)
send_room m s h = rw (ltb-lt (length s.items) s.room h) (refl, refl, refl)

send_full :
    (m : List ℕ) (s : Kernel)
    → length s.items ≡ s.room
    → ((send m s).0 ==ℤ pos 0 ≡ false) × ((send m s).1.items ≡ s.items)
send_full m s h = rw (ltb-same (length s.items) s.room h) (refl, refl)

abbrev rt_thread : QueueApi
rt_thread = record {
  State = Kernel;
  messages = λ h s. s.items;
  capacity = λ h s. s.room;
  create = λ size most s. (some 1, record { items = []; room = most });
  recv = λ h tmo s. done (recv s);
  send = λ h m s. send m s;
  delete = λ h s. s;
  recv_message = λ h tmo s m ms e. recv_message s m ms e;
  recv_empty = λ h s e. recv_empty s e;
  send_room = λ h m s e. send_room m s e;
  send_full = λ h m s e. send_full m s e;
}

abbrev posix : Queue
posix = record { q = some (fresh (replicate 4 0) 2 2); sig_cb = none; sig_arg = 0 }

posix-IsReady : Posix.IsReady posix
posix-IsReady =
    let (v, c) = fresh-IsValid (replicate 4 0) 2 2 (omega arith) (omega arith) refl (1, refl) in
    record {
      ring = fresh (replicate 4 0) 2 2;
      at = refl;
      valid = v;
      msg_size = refl;
      max_msgs = refl;
      held = refl;
    }

-- It holds no message.
posix_empty : Posix.messages posix ≡ []
posix_empty = (fresh-IsValid (replicate 4 0) 2 2 (omega arith) (omega arith) refl (1, refl)).1

abbrev freertos : FreertosKernel.Kernel
freertos = record { items = []; room = 2 }

abbrev rt : Kernel
rt = record { items = []; room = 2 }

abbrev zephyr : ZephyrQueue.Queue ZephyrKernel.kernel
zephyr = record {
  msgq = record { items = []; room = 2 };
  buffer = some 64;
  sig_cb = none;
  sig_arg = 0;
}

abbrev script : List Op
script = puts (1 ∷ 2 ∷ []) ∷ puts (3 ∷ 4 ∷ []) ∷ gets 5 ∷ puts (5 ∷ 6 ∷ []) ∷ gets 0 ∷ []

abbrev expected : Outcome (List (PosError × Option (List ℕ)))
expected = observed (run Posix.put Posix.get script posix)

posix-freertos-rt_thread-zephyr_example :
    (observed (
        run
          (Freertos.put FreertosKernel.kernel 1 2)
          (Freertos.get FreertosKernel.kernel 1 2)
          script
          freertos)
      ≡ expected)
    × (observed (run (Rt.put rt_thread 1 2) (Rt.get rt_thread 1 2) script rt) ≡ expected)
    × (observed
          (run (Zephyr.put ZephyrKernel.kernel 2) (Zephyr.get ZephyrKernel.kernel 2) script zephyr)
        ≡ expected)
posix-freertos-rt_thread-zephyr_example =
    posix-freertos-rt_thread-zephyr FreertosKernel.kernel rt_thread ZephyrKernel.kernel 1 1 script
      posix freertos rt zephyr posix-IsReady refl (sym posix_empty) (sym posix_empty)
      (sym posix_empty) refl refl refl fits
  where
    fits : Fits 2 2 (Posix.messages posix) script
    fits = subst (λ q. Fits 2 2 q script) (sym posix_empty) (omega arith)

abbrev memory : ℕ → List ℕ
memory n = replicate n 0

init_posix-answers_example :
    (q' : OsQueue (posix_native memory)) × ((init (posix_native memory) 2 2 posix
        >>= run (push (posix_native memory)) (pop (posix_native memory)) script)
      ≡ done (all_ok (answers [] script), q'))
init_posix-answers_example =
    init_posix-answers memory 2 2 posix script (λ n. length-replicate n 0) (1, refl) (omega arith)
