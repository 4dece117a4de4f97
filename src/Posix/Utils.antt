-- ===== src/Posix/Utils.antt =====
-- targets/posix/os_utils.c and os_utils.h: the error mapping, and the chain of calls that
-- `SuccessOrExit` makes.
use poski.Base.{◌≡◌, ◌≢◌, ◌↔◌, refl, arith, ℤ, pos, negsuc, ◌==ℤ◌, if◌then◌else◌}
use poski.Osal.ErrorCode.{
  PosError, is_ok, ok, enomem, einval, bad_mutex, timeout, err_priv, ebusy, error,
}

-- errno.h on Linux
abbrev pub eperm : ℤ
eperm = pos 1

abbrev pub enomem_no : ℤ
enomem_no = pos 12

abbrev pub ebusy_no : ℤ
ebusy_no = pos 16

abbrev pub einval_no : ℤ
einval_no = pos 22

abbrev pub edeadlk : ℤ
edeadlk = pos 35

abbrev pub etimedout : ℤ
etimedout = pos 110

unfoldable pub map_posix_to_osal_error : ℤ → PosError
map_posix_to_osal_error ret =
    if ret ==ℤ pos 0
    then ok
    else if ret ==ℤ enomem_no
    then enomem
    else if ret ==ℤ etimedout
    then timeout
    else if ret ==ℤ ebusy_no
    then ebusy
    else if ret ==ℤ einval_no
    then einval
    else if ret ==ℤ edeadlk
    then bad_mutex
    else if ret ==ℤ eperm
    then err_priv
    else error

-- A library call: its result, 0 for success, and the state behind it.
abbrev pub Libc : Type 0 → Type 0
Libc K = K → ℤ × K

-- `ret = f(); SuccessOrExit(ret);` and what follows: a result other than 0 goes to the exit.
infixr 5 ◌>>?◌
abbrev pub ◌>>?◌ : {K : Type 0} → Libc K → Libc K → Libc K
◌>>?◌ f g k = let (ret, k') = f k in if ret ==ℤ pos 0 then g k' else (ret, k')

-- The errno that a result of the mapping stands for.
abbrev pub errno_of : PosError → ℤ
errno_of ok = pos 0
errno_of enomem = enomem_no
errno_of timeout = etimedout
errno_of ebusy = ebusy_no
errno_of einval = einval_no
errno_of bad_mutex = edeadlk
errno_of err_priv = eperm
errno_of _ = negsuc 0

-- The mapping loses nothing but what it maps to POS_ERROR: every other result comes from one errno.
pub errno_of-map_posix :
    (ret : ℤ) → map_posix_to_osal_error ret ≢ error → errno_of (map_posix_to_osal_error ret) ≡ ret
unfolding map_posix_to_osal_error
errno_of-map_posix (pos n) ne = ground arith
errno_of-map_posix (negsuc n) ne = absurd (ne refl)

-- It is POS_OK for success only.
pub map_posix-ok_iff : (ret : ℤ) → (map_posix_to_osal_error ret ≡ ok) ↔ (ret ≡ pos 0)
unfolding map_posix_to_osal_error
map_posix-ok_iff (pos n) = (λ h. ground arith, λ h. ground arith)
map_posix-ok_iff (negsuc n) = (λ h. cc, λ h. cc)

pub is_ok-map_posix : (ret : ℤ) → is_ok (map_posix_to_osal_error ret) ≡ (ret ==ℤ pos 0)
unfolding map_posix_to_osal_error
is_ok-map_posix (pos n) = ground arith
is_ok-map_posix (negsuc n) = refl
