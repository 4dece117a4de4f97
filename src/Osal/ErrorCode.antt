-- ===== src/Osal/ErrorCode.antt =====
-- include/poski/osal/os_types.h: enum pos_error.
use poski.Base.{ℕ, ◌≡◌, refl, Bool, true, false, ◌==◌, if◌then◌else◌, Outcome}

pub data PosError : Type 0 where
  ok enomem einval invalid_param mem_not_aligned bad_mutex timeout : PosError
  err_in_isr err_priv os_not_started enoent ebusy error : PosError

-- The number that C gives to each.
abbrev pub code : PosError → ℕ
code ok = 0
code enomem = 1
code einval = 2
code invalid_param = 3
code mem_not_aligned = 4
code bad_mutex = 5
code timeout = 6
code err_in_isr = 7
code err_priv = 8
code os_not_started = 9
code enoent = 10
code ebusy = 11
code error = 12

abbrev pub is_ok : PosError → Bool
is_ok ok = true
is_ok _ = false

-- A call on the state `S` of an object and of the kernel behind it.
abbrev pub Call : Type 0 → Type 0
Call S = S → Outcome (PosError × S)

-- The value of the enumeration with a number, as an assignment of an `int` gives it; numbers that are
-- not of the enumeration do not occur in the code.
abbrev pub error_of : ℕ → PosError
error_of n =
    if n == 0
    then ok
    else if n == 1
    then enomem
    else if n == 2
    then einval
    else if n == 3
    then invalid_param
    else if n == 4
    then mem_not_aligned
    else if n == 5
    then bad_mutex
    else if n == 6
    then timeout
    else if n == 7
    then err_in_isr
    else if n == 8
    then err_priv
    else if n == 9
    then os_not_started
    else if n == 10
    then enoent
    else if n == 11
    then ebusy
    else error

pub error_of-code : (e : PosError) → error_of (code e) ≡ e
error_of-code ok = refl
error_of-code enomem = refl
error_of-code einval = refl
error_of-code invalid_param = refl
error_of-code mem_not_aligned = refl
error_of-code bad_mutex = refl
error_of-code timeout = refl
error_of-code err_in_isr = refl
error_of-code err_priv = refl
error_of-code os_not_started = refl
error_of-code enoent = refl
error_of-code ebusy = refl
error_of-code error = refl

pub is_ok→ok : (e : PosError) → is_ok e ≡ true → e ≡ ok
is_ok→ok ok h = refl
is_ok→ok enomem h = absurd (cc)
is_ok→ok einval h = absurd (cc)
is_ok→ok invalid_param h = absurd (cc)
is_ok→ok mem_not_aligned h = absurd (cc)
is_ok→ok bad_mutex h = absurd (cc)
is_ok→ok timeout h = absurd (cc)
is_ok→ok err_in_isr h = absurd (cc)
is_ok→ok err_priv h = absurd (cc)
is_ok→ok os_not_started h = absurd (cc)
is_ok→ok enoent h = absurd (cc)
is_ok→ok ebusy h = absurd (cc)
is_ok→ok error h = absurd (cc)
