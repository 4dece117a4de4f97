-- ===== src/RtThread/Tests.antt =====
-- A kernel with one mutex, which another thread may hold.
use poski.Base.{
  ℕ, zero, suc, ◌≡◌, refl, Bool, true, false, some, ℤ, pos, negsuc, ◌==ℤ◌, if◌then◌else◌, Outcome,
  done, Ensures,
}
use poski.Osal.ErrorCode.{bad_mutex}
use poski.RtThread.Sync.{neg_etimeout, MutexApi, pos_mutex_lock}
use poski.RtThread.Sync.Laws.{handle_at}

record Kernel : Type 0 where
  depth : ℕ
  busy : Bool

abbrev take : Kernel → Outcome (ℤ × Kernel)
take s = if s.busy then done (neg_etimeout, s) else done (pos 0, record s { depth = suc s.depth })

abbrev release : Kernel → ℤ × Kernel
release s = elim s.depth [ zero ↦ (negsuc 0, s) | suc n ↦ (pos 0, record s { depth = n }) ]

take_lem :
    (b : Bool) (s : Kernel)
    → s.busy ≡ b
    → Ensures {A = ℤ × Kernel}
        (λ p. p.1.depth ≡ (if p.0 ==ℤ pos 0 then suc s.depth else s.depth))
        (take s)
take_lem true s e = rw e refl
take_lem false s e = rw e refl

release_lem :
    (n : ℕ) (s : Kernel)
    → s.depth ≡ n
    → n ≡ (if (release s).0 ==ℤ pos 0 then suc (release s).1.depth else (release s).1.depth)
release_lem zero s e = rw e refl
release_lem (suc n) s e = rw e refl

abbrev kernel : MutexApi
kernel = record {
  State = Kernel;
  in_isr = λ s. false;
  holds = λ h s. s.depth;
  create = λ s. (some 1, s);
  take = λ h tmo s. take s;
  release = λ h s. release s;
  take_lem = λ h tmo s. take_lem s.busy s refl;
  release_lem = λ h s. release_lem s.depth s refl;
}

abbrev free : Kernel
free = record { depth = 1; busy = false }

abbrev taken : Kernel
taken = record { depth = 0; busy = true }

taken_times_out : pos_mutex_lock kernel (handle_at 1) 300 taken ≡ done (bad_mutex, taken)
unfolding pos_mutex_lock
taken_times_out = refl
