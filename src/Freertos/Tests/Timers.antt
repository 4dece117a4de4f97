-- ===== src/Freertos/Tests/Timers.antt =====
-- A kernel with one timer, at a fixed time.
use poski.Base.{ℕ, ◌+◌, ◌<◌, ◌≡◌, ◌↔◌, refl, Bool, true, false, some, arith, u32, done}
use poski.Osal.ErrorCode.{ok, enomem}
use poski.Freertos.Time.{pos_time_ms_to_ticks, ms_to_ticks-exact_iff}
use poski.Freertos.Timer.{
  TimerApi, Timer, pos_timer_start, pos_timer_stop, pos_timer_is_active, pos_timer_remaining_ticks,
}
use poski.Freertos.Timer.Laws.{stop-enomem, start-remaining_ticks}

pub record Kernel : Type 0 where
  pub running : Bool
  pub period : ℕ
  pub expiry : ℕ

abbrev pub kernel : TimerApi
kernel = record {
  State = Kernel;
  in_isr = λ s. false;
  active = λ h s. s.running;
  expiry = λ h s. s.expiry;
  period = λ h s. s.period;
  now = λ s. 1000;
  create = λ ticks s. (some 1, record s { running = false; period = ticks });
  stop = λ h s. (true, record s { running = false });
  change_period =
      λ h ticks s. (true, record { running = true; period = ticks; expiry = u32 (1000 + ticks) });
  reset = λ h s. (true, record s { running = true; expiry = u32 (1000 + s.period) });
  stop_from_isr = λ h s. (true, false, record s { running = false });
  change_period_from_isr = λ h ticks s. (true, false, record s { period = ticks });
  reset_from_isr = λ h s. (true, false, record s { running = true });
  yield_from_isr = λ woken s. s;
  stop_lem = λ h s. (λ p. refl, refl, refl);
  change_period_lem = λ h ticks s p. (refl, refl);
  reset_lem = λ h s p. (refl, refl);
}

abbrev pub timer : Timer
timer = record { handle = some 1; func = 7; arg = 9 }

abbrev running : Kernel
running = record { running = true; period = 5; expiry = 1005 }

stop-enomem_example :
    (s' : Kernel) × (pos_timer_stop kernel timer running ≡ done (enomem, s'))
    × (true ≡ true → pos_timer_is_active kernel timer s' ≡ done false)
stop-enomem_example = stop-enomem kernel timer 1 running refl

start-remaining_ticks_example :
    (s' : Kernel) × (pos_timer_start kernel timer 1500 running ≡ done (ok, s'))
    × (pos_timer_is_active kernel timer s' ≡ done true)
    × (pos_timer_remaining_ticks kernel timer 1000 s' ≡ done 1500)
start-remaining_ticks_example =
    start-remaining_ticks kernel timer 1 1500 running refl refl (λ n u. refl) (λ u. refl)
      (omega arith)

ms_to_ticks-exact_iff_example : (pos_time_ms_to_ticks 1000 5000 ≡ 5000) ↔ (5000 < 4294968)
ms_to_ticks-exact_iff_example = ms_to_ticks-exact_iff 5000
