-- ===== src/Log.antt =====
-- src/log.c: the log's state, and the format that usbmuxd_log builds in a buffer of its own.
pub mod Fits
use usbmuxd.Prelude.{
  Bool, List, Option, [], false, if◌then◌else◌, length, ltb, none, some, true, ℕ, ◌%◌, ◌++◌, ◌+◌,
  ◌/◌, ◌∷◌,
}
use usbmuxd.World.{M, crash, pure, ◌>>=◌, ◌>>◌}
use usbmuxd.Client.Replies.{decimal}

-- `log_level`, `log_syslog`, and whether the connection to syslog is open.
pub record Log : Type 0 where
  pub log_level : ℕ
  pub log_syslog : Bool
  pub is_open : Bool

unfoldable pub log_enable_syslog : Log → Log
log_enable_syslog l = if l.log_syslog then l else record l { log_syslog = true; is_open = true }

unfoldable pub log_disable_syslog : Log → Log
log_disable_syslog l = if l.log_syslog then record l { is_open = false } else l

-- `LOG_CRIT` and `LOG_DEBUG`.
abbrev pub log_crit : ℕ
log_crit = 2

abbrev pub log_debug : ℕ
log_debug = 7

unfoldable pub level_to_syslog_level : ℕ → ℕ
level_to_syslog_level level =
    let result = level + log_crit in if ltb log_debug result then log_debug else result

-- `localtime`, with the microseconds of `gettimeofday`.
pub record Time : Type 0 where
  pub hour : ℕ
  pub minute : ℕ
  pub second : ℕ
  pub usec : ℕ

abbrev pub two_digits : ℕ → List ℕ
two_digits n = (48 + n / 10) ∷ (48 + n % 10) ∷ []

-- `%.03d`: three digits at least.
abbrev pub three_digits : ℕ → List ℕ
three_digits n =
    if ltb n 1000 then (48 + n / 100) ∷ (48 + n / 10 % 10) ∷ (48 + n % 10) ∷ [] else decimal n

-- "[%d] %s\n"
unfoldable pub tagged : ℕ → List ℕ → List ℕ
unfolding decimal
tagged level fmt = (91 ∷ []) ++ (decimal level ++ ((93 ∷ 32 ∷ []) ++ (fmt ++ (10 ∷ []))))

-- "[%H:%M:%S"
abbrev pub time_of_day : Time → List ℕ
time_of_day t =
    (91 ∷ two_digits t.hour) ++ ((58 ∷ two_digits t.minute) ++ (58 ∷ two_digits t.second))

-- For standard error: the time, the milliseconds, and the same.
unfoldable pub stamped : Time → ℕ → List ℕ → List ℕ
unfolding tagged
stamped t level fmt =
    time_of_day t ++ ((46 ∷ three_digits (t.usec / 1000)) ++ (93 ∷ tagged level fmt))

-- `sprintf` into a buffer: a text that does not fit with its NUL is a fault.
abbrev pub sprintf_into : ℕ → List ℕ → M (List ℕ)
sprintf_into capacity text = if ltb capacity (length text + 1) then crash else pure text

abbrev pub format_of : Log → ℕ → Time → List ℕ → List ℕ
format_of l level t fmt = if l.log_syslog then tagged level fmt else stamped t level fmt

-- The format that goes to syslog or to standard error, `none` above the level of the log.
unfoldable pub usbmuxd_log : Log → ℕ → Time → List ℕ → M (Option (List ℕ))
unfolding tagged stamped
usbmuxd_log l level t fmt =
    if ltb l.log_level level
    then pure none
    else (do fs ← sprintf_into (20 + length fmt) (format_of l level t fmt); pure (some fs))
