-- ===== src/RtThread/Sync/Laws.antt =====
-- targets/rt-thread/os_sem.c and os_mutex.c against the interfaces Osal.Semaphore and Osal.Mutex, and a
-- lock that times out.
use poski.Base.{
  ℕ, ◌≡◌, refl, Bool, true, false, not, Option, some, ℤ, ◌==ℤ◌, if◌then◌else◌, done, Ensures,
  Ensures-then, Ensures-assert,
}
use poski.Osal.ErrorCode.{PosError, ok, bad_mutex, timeout, error, is_ok}
use poski.Osal.Semaphore.{Semaphore, Takes, Gives}
use poski.Osal.Mutex.{Mutex, Locks, Unlocks}
use poski.RtThread.Sync.{
  rt_eok, neg_etimeout, Handle, SemApi, pos_sem_take, pos_sem_give, MutexApi, pos_mutex_lock,
  pos_mutex_unlock,
}

abbrev pub handle_at : ℕ → Option Handle
handle_at h = some (record { handle = some h })

is_ok-either : (b : Bool) (e : PosError) → is_ok e ≡ false → is_ok (if b then ok else e) ≡ b
is_ok-either true e h = refl
is_ok-either false e h = h

module _ (A : SemApi) where
  open A use {State, tokens, take, release, take_lem, release_lem}

  -- A take takes a token exactly if it ends with POS_OK, and so does a give add one.
  pub rt_take-Takes :
      (h tmo : ℕ) (s : State)
      → Ensures (Takes (tokens h) (tokens h s)) (pos_sem_take A (handle_at h) tmo s)
  unfolding pos_sem_take
  rt_take-Takes h tmo s =
      Ensures-then {A = ℤ × State} _ (Takes (tokens h) (tokens h s)) (take h tmo s) _
        (take_lem h tmo s) (λ p t. rw (is_ok-either (p.0 ==ℤ rt_eok) timeout refl) t)

  pub rt_give-Gives :
      (h : ℕ) (s : State) → Ensures (Gives (tokens h) (tokens h s)) (pos_sem_give A (handle_at h) s)
  unfolding pos_sem_give
  rt_give-Gives h s = rw (is_ok-either ((release h s).0 ==ℤ rt_eok) error refl) (release_lem h s)

  abbrev pub rt_semaphore : ℕ → Semaphore
  rt_semaphore h = record {
    State = State;
    tokens = tokens h;
    take = pos_sem_take A (handle_at h);
    give = pos_sem_give A (handle_at h);
    take_lem = rt_take-Takes h;
    give_lem = rt_give-Gives h;
  }

module _ (A : MutexApi) where
  open A use {State, in_isr, holds, take, release, take_lem, release_lem}

  -- The calling thread holds the mutex once more exactly if the lock ends with POS_OK, and once less
  -- exactly if the unlock does.
  pub rt_lock-Locks :
      (h tmo : ℕ) (s : State)
      → Ensures (Locks (holds h) (holds h s)) (pos_mutex_lock A (handle_at h) tmo s)
  unfolding pos_mutex_lock
  rt_lock-Locks h tmo s =
      Ensures-then {A = ℤ × State} _ (Locks (holds h) (holds h s)) (take h tmo s) _
        (take_lem h tmo s) (λ p t. rw (is_ok-either (p.0 ==ℤ rt_eok) bad_mutex refl) t)

  pub rt_unlock-Unlocks :
      (h : ℕ) (s : State)
      → Ensures (Unlocks (holds h) (holds h s)) (pos_mutex_unlock A (handle_at h) s)
  unfolding pos_mutex_unlock
  rt_unlock-Unlocks h s =
      Ensures-assert (Unlocks (holds h) (holds h s)) (not (in_isr s)) _
        (λ _. rw (is_ok-either ((release h s).0 ==ℤ rt_eok) bad_mutex refl) (release_lem h s))

  -- A lock whose timeout ends returns POS_BAD_MUTEX, not POS_TIMEOUT.
  pub lock_timeout-bad_mutex :
      (h tmo : ℕ) (s s' : State)
      → take h tmo s ≡ done (neg_etimeout, s')
      → pos_mutex_lock A (handle_at h) tmo s ≡ done (bad_mutex, s')
  unfolding pos_mutex_lock
  lock_timeout-bad_mutex h tmo s s' e = rw e refl

  abbrev pub rt_mutex : ℕ → Mutex
  rt_mutex h = record {
    State = State;
    holds = holds h;
    lock = pos_mutex_lock A (handle_at h);
    unlock = pos_mutex_unlock A (handle_at h);
    lock_lem = rt_lock-Locks h;
    unlock_lem = rt_unlock-Unlocks h;
  }
