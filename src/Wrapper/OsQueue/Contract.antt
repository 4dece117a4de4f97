-- ===== src/Wrapper/OsQueue/Contract.antt =====
-- OsQueue over a native queue that keeps the contract Osal.Queue, and over the one of the POSIX port.
use poski.Base.{
  ℕ, ◌^◌, ◌<◌, ◌≡◌, refl, true, false, none, some, List, [], ◌∷◌, ◌++◌, length, u16, done, ◌>>=◌,
  ◌==◌, if◌then◌else◌,
}
use poski.Osal.ErrorCode.{ok}
use poski.Osal.Native.{NativeQueue}
use poski.Osal.Queue.{Delivers, Op, Fits, answers, all_ok, run, run-answers}
use poski.Posix.Queue
use poski.Posix.Queue.Contract as PosixContract
use poski.Posix.Queue.Laws.{init-Holds}
use poski.Wrapper.OsQueue.{OsQueue, init, push, pop}

module _ (N : NativeQueue) (D : Delivers N.State N.put N.get) where
  abbrev pub IsReady : OsQueue N → Type 0
  IsReady q = (q.initialized ≡ true) × D.IsReady q.queue

  pub put_room :
      (m : List ℕ) (q : OsQueue N)
      → IsReady q
      → length m ≡ D.msg_size q.queue
      → length (D.messages q.queue) < D.capacity q.queue
      → (q' : OsQueue N) × (push N m q ≡ done (ok, q'))
        × IsReady q'
        × (D.messages q'.queue ≡ D.messages q.queue ++ m ∷ [])
        × (D.capacity q'.queue ≡ D.capacity q.queue)
        × (D.msg_size q'.queue ≡ D.msg_size q.queue)
  unfolding push
  put_room m q (i, ready) sized room =
      let (s, p, r, k, c, z) = D.put_room m q.queue ready sized room in
      (record q { queue = s }, simp (i, p) refl, (i, r), k, c, z)

  pub get_message :
      (tmo : ℕ) (q : OsQueue N) (m : List ℕ) (ms : List (List ℕ))
      → IsReady q
      → D.messages q.queue ≡ m ∷ ms
      → (q' : OsQueue N) × (pop N tmo q ≡ done (ok, some m, q'))
        × IsReady q'
        × (D.messages q'.queue ≡ ms)
        × (D.capacity q'.queue ≡ D.capacity q.queue)
        × (D.msg_size q'.queue ≡ D.msg_size q.queue)
  unfolding pop
  get_message tmo q m ms (i, ready) e =
      let (s, p, r, k, c, z) = D.get_message tmo q.queue m ms ready e in
      (record q { queue = s }, simp (i, p) refl, (i, r), k, c, z)

  abbrev pub os_queue_delivers : Delivers (OsQueue N) (push N) (pop N)
  os_queue_delivers = record {
    IsReady = IsReady;
    messages = λ q. D.messages q.queue;
    capacity = λ q. D.capacity q.queue;
    msg_size = λ q. D.msg_size q.queue;
    put_room = put_room;
    get_message = get_message;
  }

-- The functions of the POSIX port that OsQueue calls; `new` allocates.
abbrev pub posix_native : (ℕ → List ℕ) → NativeQueue
posix_native new_bytes = record {
  State = Queue.Queue;
  init = λ size most s. Queue.pos_queue_init new_bytes size most;
  deinit = λ s.
      let (e, after, deleted) = Queue.pos_queue_deinit (some s) in
      (e, elim after [ none ↦ s | some s' ↦ s' ]);
  get = PosixContract.get;
  put = PosixContract.put;
  is_empty = Queue.pos_queue_is_empty;
  inited = λ s. if Queue.pos_queue_inited s == 0 then false else true;
  set_signal_cb = λ cb arg s. Queue.pos_queue_set_signal_cb s cb arg;
}

-- An OsQueue of the POSIX port, from its constructor on: if QueueSize, cut to 16 bits, is a power of
-- two, any Push and Pop that find room for a message of the right size, or a message, return POS_OK and
-- what a first-in, first-out queue returns. The allocator returns as many bytes as it is asked for.
pub init_posix-answers :
    (new_bytes : ℕ → List ℕ) (size most : ℕ) (s : Queue.Queue) (ops : List Op)
    → ((n : ℕ) → length (new_bytes n) ≡ n)
    → (k : ℕ) × (u16 most ≡ 2 ^ k)
    → Fits (u16 most) (u16 size) [] ops
    → (q' : OsQueue (posix_native new_bytes)) × ((init (posix_native new_bytes) size most s
          >>= run (push (posix_native new_bytes)) (pop (posix_native new_bytes)) ops)
        ≡ done (all_ok (answers [] ops), q'))
unfolding init
init_posix-answers new_bytes size most s ops alloc power fits =
    let (msgq, p, h) = init-Holds new_bytes size most alloc power in
    let (e, c, z) = PosixContract.Holds-view h in
    let N = posix_native new_bytes in
    let (q', r, ready, left) =
      run-answers (push N) (pop N) (os_queue_delivers N PosixContract.posix_delivers) ops []
        (u16 most) (u16 size) (record { queue = msgq; initialized = true; init_status = ok })
        (refl, PosixContract.Holds-IsReady h) e c z fits in
    (q', rw p r)
