-- ===== src/Wrapper/OsQueue.antt =====
-- include/poski/OsQueue.h: a queue of messages of one type, which remembers whether it is initialised.
pub mod Contract
use poski.Base.{
  ℕ, ◌≡◌, refl, Bool, true, false, Bool-cases, inl, inr, Option, none, some, List, ◌&&◌,
  if◌then◌else◌, Outcome, done, assert_failed, undefined, blocked, assert, ◌>>=◌, ◌>>◌, Ensures,
  Ensures-then, Ensures-assert,
}
use poski.Osal.ErrorCode.{PosError, ok, einval, is_ok, is_ok→ok}
use poski.Osal.Native.{NativeQueue}

module _ (M : NativeQueue) where
  open M use {State, deinit, get, put, is_empty, inited, set_signal_cb}

  pub record OsQueue : Type 0 where
    pub queue : State
    pub initialized : Bool
    pub init_status : PosError

  -- For messages of `size` bytes, of type T, and QueueSize `most`; `s` is the cleared native queue.
  unfoldable pub init : ℕ → ℕ → State → Outcome OsQueue
  init size most s = M.init size most s >>= λ p.
      assert (is_ok p.0)
      >> done (record { queue = p.1; initialized = is_ok p.0; init_status = p.0 })

  unfoldable pub destroy : OsQueue → Outcome OsQueue
  destroy q =
      if q.initialized
      then (let (err, s) = deinit q.queue in
          assert (is_ok err)
          >> done (record q { queue = s; initialized = if is_ok err then false else true }))
      else done q

  unfoldable pub pop : ℕ → OsQueue → Outcome (PosError × Option (List ℕ) × OsQueue)
  pop tmo q =
      if q.initialized
      then (get tmo q.queue >>= λ p. done (p.0, p.1, record q { queue = p.2 }))
      else done (einval, none, q)

  unfoldable pub push : List ℕ → OsQueue → Outcome (PosError × OsQueue)
  push item q =
      if q.initialized
      then (put item q.queue >>= λ p. done (p.0, record q { queue = p.1 }))
      else done (einval, q)

  unfoldable pub is_it_empty : OsQueue → Outcome Bool
  is_it_empty q = if q.initialized then is_empty q.queue else done false

  unfoldable pub is_inited : OsQueue → Bool
  is_inited q = q.initialized && inited q.queue

  unfoldable pub set_signal_callback : Option ℕ → ℕ → OsQueue → OsQueue
  set_signal_callback signal_cb arg q =
      if q.initialized then record q { queue = set_signal_cb signal_cb arg q.queue } else q

  unfoldable pub get_native : OsQueue → Option State
  get_native q = if q.initialized then some q.queue else none

  -- An OsQueue whose constructor returns is initialised.
  pub init-initialized :
      (size most : ℕ) (s : State)
      → Ensures {A = OsQueue}
          (λ q. (q.initialized ≡ true) × (q.init_status ≡ ok))
          (init size most s)
  unfolding init
  init-initialized size most s =
      Ensures-then {A = PosError × State} (λ p. Unit {0})
        (λ q. (q.initialized ≡ true) × (q.init_status ≡ ok)) (M.init size most s) _
        (anything (M.init size most s))
        (λ p _.
          Ensures-assert {B = OsQueue} (λ q. (q.initialized ≡ true) × (q.init_status ≡ ok))
            (is_ok p.0) _ (λ e. (e, is_ok→ok p.0 e)))
    where
      anything : (r : Outcome (PosError × State)) → Ensures {A = PosError × State} (λ p. Unit {0}) r
      anything (done p) = tt
      anything assert_failed = tt
      anything undefined = tt
      anything blocked = tt

  -- After its destructor, an object passes nothing on to the native queue.
  pub destroy-einval :
      (q : OsQueue)
      → Ensures {A = OsQueue}
          (λ d.
            ((item : List ℕ) → push item d ≡ done (einval, d))
            × ((tmo : ℕ) → pop tmo d ≡ done (einval, none, d))
            × (is_it_empty d ≡ done false)
            × (is_inited d ≡ false)
            × ((cb : Option ℕ) (arg : ℕ) → set_signal_callback cb arg d ≡ d)
            × (get_native d ≡ none))
          (destroy q)
  unfolding destroy push pop is_it_empty is_inited set_signal_callback get_native
  destroy-einval q = elim (Bool-cases q.initialized) [
    | inl e ↦ elim (Bool-cases (is_ok (deinit q.queue).0)) [
      | inl k ↦ rw (e, k) (λ item. refl, λ tmo. refl, refl, refl, λ cb arg. refl, refl)
      | inr k ↦ rw (e, k) tt
    ]
    | inr e ↦ rw e (λ item. refl, λ tmo. refl, refl, refl, λ cb arg. refl, refl)
  ]
