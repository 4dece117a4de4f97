-- ===== src/Zephyr/Task/Stacks.antt =====
-- Any initialisations and removals of tasks of targets/zephyr/os_task.c, and their stacks.
use poski.Base.{
  ℕ, zero, suc, ◌<◌, ◌≤◌, ◌≡◌, ◌≢◌, ◌↔◌, refl, ap, ◌∙◌, subst, Bool, true, false, Bool-cases, inl,
  inr, Option, none, some, List, [], ◌∷◌, ◌++◌, arith, length, length-set, get_or, set, replicate,
  ltb, if◌then◌else◌,
}
use poski.Osal.ErrorCode.{PosError, enomem, is_ok}
use poski.Zephyr.Task.{
  Task, ThreadApi, World, max_tasks, max_stack_size, find_unused, started, pos_task_init,
  pos_task_remove,
}
use poski.Zephyr.Task.Slots.{
  count_used-le, find_unused-some, find_unused-none, count_used-set-true, set-set, free_stack-set,
}
use poski.Zephyr.Task.Owned.{AllStacked-middle, Owned, Owned-add, Owned-remove}

module _ (A : ThreadApi) where
  open A use {State, create}

  -- The live tasks after some initialisations and removals, the last one first; only live tasks are
  -- removed.
  pub data Reach : World A → List Task → Type 0 where
    boot : (s : State) → Reach (record { system = s; stack_used = replicate max_tasks false }) []
    init :
        {w w' : World A} {ts : List Task} {t' : Task} {e : PosError}
        → Reach w ts
        → (t : Task) (name func arg prio stack_size : ℕ)
        → pos_task_init A t name func arg prio stack_size w ≡ (e, t', w')
        → Reach w' (if is_ok e then t' ∷ ts else ts)
    remove :
        {w : World A} (xs : List Task) (t : Task) (ys : List Task)
        → Reach w (xs ++ t ∷ ys)
        → Reach (pos_task_remove A t w).1 (xs ++ ys)

  -- What a call of `pos_task_init` leaves behind.
  abbrev pub After : List Task → PosError × Task × World A → Type 0
  After ts p = Owned p.2.stack_used (if is_ok p.0 then p.1 ∷ ts else ts)

  started-After :
      (name i : ℕ) {us : List Bool} {ts : List Task} (tid : Option ℕ) (s : State)
      → Owned us ts
      → i < length us
      → get_or us i false ≡ false
      → After ts (started A name i (set us i true) tid s)
  unfolding started
  started-After name i (some h) s o lt unused =
      Owned-add (record { tid = some h; stack = some i }) i o refl lt unused
  started-After name i {us} none s o lt unused = rw (set-set us i unused) o

  pub init-After :
      (w : World A) (ts : List Task) (t : Task) (name func arg prio stack_size : ℕ)
      → Owned w.stack_used ts
      → After ts (pos_task_init A t name func arg prio stack_size w)
  unfolding pos_task_init
  init-After w ts t name func arg prio stack_size o =
      elim (Bool-cases (ltb max_stack_size stack_size)) [
        | inl q ↦ rw q o
        | inr q ↦ rw q (by_stack (find_unused 0 w.stack_used) refl)
      ]
    where
      by_stack :
          (found : Option ℕ)
          → find_unused 0 w.stack_used ≡ found
          → After ts (elim found [
            | none ↦ (enomem, t, w)
            | some i ↦
                let (tid, s) = create i max_stack_size func arg prio w.system in
                started A name i (set w.stack_used i true) tid s
          ])
      by_stack none e = o
      by_stack (some i) e =
          let (k, same, lt, unused) = find_unused-some 0 w.stack_used i e in
          let at : i ≡ k = omega (arith, same) in
          started-After name i (create i max_stack_size func arg prio w.system).0
            (create i max_stack_size func arg prio w.system).1 o (omega (arith, lt, at))
            (ap (λ j. get_or w.stack_used j false) at ∙ unused)

  pub remove-Owned :
      (w : World A) (xs : List Task) (t : Task) (ys : List Task)
      → Owned w.stack_used (xs ++ t ∷ ys)
      → Owned (pos_task_remove A t w).1.stack_used (xs ++ ys)
  unfolding pos_task_remove
  remove-Owned w xs t ys o =
      let (k, e) = (AllStacked-middle xs t ys o.stacked).0 in
      rw (e, free_stack-set w.stack_used 0 k k (omega arith)) (Owned-remove xs t ys k o e)

  -- In a state that initialisations and removals of live tasks reach, each of the ten stacks belongs to
  -- one live task if it is marked as used, and to none otherwise, and each live task has one.
  pub Reach-Owned : {w : World A} {ts : List Task} → Reach w ts → Owned w.stack_used ts
  Reach-Owned (boot s) = record {
    sized = refl;
    exclusive = unmarked max_tasks;
    counted = refl;
    stacked = tt;
  }
    where
      unmarked : (n i : ℕ) → ◌≡◌ {A = ℕ} 0 (if get_or (replicate n false) i false then 1 else 0)
      unmarked zero i = refl
      unmarked (suc n) zero = refl
      unmarked (suc n) (suc i) = unmarked n i
  Reach-Owned (init {w} {w'} {ts} r t name func arg prio stack_size p) =
      subst (After ts) p (init-After w ts t name func arg prio stack_size (Reach-Owned r))
  Reach-Owned (remove {w} xs t ys r) = remove-Owned w xs t ys (Reach-Owned r)

  -- There, an initialisation with a stack size that fits returns POS_ENOMEM exactly if ten tasks live.
  pub init-enomem_iff :
      {w : World A} {ts : List Task}
      → Reach w ts
      → (t : Task) (name func arg prio stack_size : ℕ) → stack_size ≤ 2048
      → ((pos_task_init A t name func arg prio stack_size w).0 ≡ enomem) ↔ (length ts ≡ 10)
  unfolding pos_task_init started
  init-enomem_iff {w} {ts} r t name func arg prio stack_size fits =
      rw (small max_stack_size stack_size fits) (by_stack (find_unused 0 w.stack_used) refl)
    where
      o : Owned w.stack_used ts
      o = Reach-Owned r

      small : (m n : ℕ) → n ≤ m → ltb m n ≡ false
      small m n h = ground arith

      with_stack : Option ℕ → PosError × Task × World A
      with_stack found = elim found [
        | none ↦ (enomem, t, w)
        | some i ↦
            let (tid, s) = create i max_stack_size func arg prio w.system in
            started A name i (set w.stack_used i true) tid s
      ]

      not_full :
          (k : ℕ) → k < length w.stack_used → get_or w.stack_used k false ≡ false → length ts ≢ 10
      not_full k lt unused full = absurd (
          omega (
            arith,
            count_used-set-true w.stack_used k lt unused,
            count_used-le (set w.stack_used k true),
            length-set w.stack_used k true,
            o.sized,
            o.counted,
          ))

      by_tid :
          (i : ℕ) (tid : Option ℕ) (s : State)
          → (started A name i (set w.stack_used i true) tid s).0 ≢ enomem
      by_tid i none s h = absurd (cc)
      by_tid i (some j) s h = absurd (cc)

      by_stack :
          (found : Option ℕ)
          → find_unused 0 w.stack_used ≡ found
          → ((with_stack found).0 ≡ enomem) ↔ (length ts ≡ 10)
      by_stack none e =
          (λ h. omega (arith, find_unused-none 0 w.stack_used e, o.sized, o.counted), λ h. refl)
      by_stack (some i) e =
          let (k, same, lt, unused) = find_unused-some 0 w.stack_used i e in
          (λ h. absurd (by_tid i _ _ h), λ h. absurd (not_full k lt unused h))
