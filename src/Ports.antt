-- ===== src/Ports.antt =====
-- The message queues of the four ports side by side: targets/posix/os_queue.cc,
-- targets/freertos/os_queue.c, targets/rt-thread/os_queue.c and targets/zephyr/os_queue.c.
pub mod Timers
pub mod Panic
mod Tests
use poski.Base.{ℕ, ◌≡◌, refl, sym, ◌∙◌, subst, false, List, Outcome}
use poski.Osal.Queue.{Op, Fits, run, run-same, observed}
use poski.Posix.Queue
use poski.Posix.Queue.Contract as Posix
use poski.Freertos.Queue as FreertosQueue
use poski.Freertos.Queue.Contract as Freertos
use poski.RtThread.Queue as RtQueue
use poski.RtThread.Queue.Laws as Rt
use poski.Zephyr.Queue as ZephyrQueue
use poski.Zephyr.Queue.Contract as Zephyr

module _ (F : FreertosQueue.QueueApi) (R : RtQueue.QueueApi) (Z : ZephyrQueue.QueueApi) where
  -- On queues of the four ports with the same messages and dimensions, in a task, any puts and gets that
  -- find room for a message of the right size, or a message, return the same errors and messages.
  pub posix-freertos-rt_thread-zephyr :
      (f r : ℕ) (ops : List Op) (p : Queue.Queue) (s : F.State) (u : R.State)
      (z : ZephyrQueue.Queue Z)
      → Posix.IsReady p
      → F.in_isr s ≡ false
      → F.messages f s ≡ Posix.messages p
      → R.messages r u ≡ Posix.messages p
      → Z.messages z.msgq ≡ Posix.messages p
      → F.capacity f s ≡ Posix.capacity p
      → R.capacity r u ≡ Posix.capacity p
      → Z.capacity z.msgq ≡ Posix.capacity p
      → Fits (Posix.capacity p) (Posix.msg_size p) (Posix.messages p) ops
      → (observed
            (run (Freertos.put F f (Posix.msg_size p)) (Freertos.get F f (Posix.msg_size p)) ops s)
          ≡ observed (run Posix.put Posix.get ops p))
        × (observed (run (Rt.put R r (Posix.msg_size p)) (Rt.get R r (Posix.msg_size p)) ops u)
            ≡ observed (run Posix.put Posix.get ops p))
        × (observed (run (Zephyr.put Z (Posix.msg_size p)) (Zephyr.get Z (Posix.msg_size p)) ops z)
            ≡ observed (run Posix.put Posix.get ops p))
  posix-freertos-rt_thread-zephyr f r ops p s u z ready task fm rm zm fc rc zc fits =
      let n = Posix.msg_size p in
      (
        run-same (Freertos.put F f n) (Freertos.get F f n) Posix.put Posix.get
            (Freertos.freertos_delivers F f n) Posix.posix_delivers ops s p task ready fm fc refl
            fits,
        run-same (Rt.put R r n) (Rt.get R r n) Posix.put Posix.get (Rt.rt_delivers R r n)
            Posix.posix_delivers ops u p tt ready rm rc refl fits,
        run-same (Zephyr.put Z n) (Zephyr.get Z n) Posix.put Posix.get (Zephyr.zephyr_delivers Z n)
            Posix.posix_delivers ops z p tt ready zm zc refl fits,
      )
