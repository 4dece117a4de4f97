-- ===== src/Zephyr/Utils.antt =====
-- targets/zephyr/os_utils.c, and the waits and results that os_mutex.c, os_sem.c and os_queue.c
-- translate, each in the same way.
use poski.Base.{ℕ, ◌-◌, ◌^◌, ◌≡◌, arith, ◌==◌, ℤ, pos, negsuc, ◌==ℤ◌, if◌then◌else◌}
use poski.Osal.ErrorCode.{PosError, ok, enomem, einval, timeout, ebusy, error, is_ok}

-- -ENOMEM, -EAGAIN, -EBUSY and -EINVAL
abbrev pub neg_enomem : ℤ
neg_enomem = negsuc 11

abbrev pub neg_eagain : ℤ
neg_eagain = negsuc 10

abbrev pub neg_ebusy : ℤ
neg_ebusy = negsuc 15

abbrev pub neg_einval : ℤ
neg_einval = negsuc 21

unfoldable pub map_zephyr_to_osal_error : ℤ → PosError
map_zephyr_to_osal_error ret =
    if ret ==ℤ pos 0
    then ok
    else if ret ==ℤ neg_enomem
    then enomem
    else if ret ==ℤ neg_eagain
    then timeout
    else if ret ==ℤ neg_ebusy
    then ebusy
    else if ret ==ℤ neg_einval
    then einval
    else error

-- K_FOREVER, K_NO_WAIT and K_MSEC(ms)
pub data Timeout : Type 0 where
  forever no_wait : Timeout
  msec : (ms : ℕ) → Timeout

-- K_TICKS(n) and K_MSEC(ms), of sleeps and timers
pub data Duration : Type 0 where
  ticks : (n : ℕ) → Duration
  span : (ms : ℕ) → Duration

abbrev pub time_forever : ℕ
time_forever = 2 ^ 32 - 1

unfoldable pub kernel_timeout : ℕ → Timeout
kernel_timeout tmo = if tmo == time_forever then forever else if tmo == 0 then no_wait else msec tmo

unfoldable pub result_of : ℤ → PosError
result_of err = if err ==ℤ pos 0 then ok else if err ==ℤ neg_eagain then timeout else error

pub is_ok-result_of : (err : ℤ) → is_ok (result_of err) ≡ (err ==ℤ pos 0)
unfolding result_of
is_ok-result_of (pos n) = ground arith
is_ok-result_of (negsuc n) = ground arith
