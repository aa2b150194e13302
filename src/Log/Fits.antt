-- ===== src/Log/Fits.antt =====
-- The buffer of usbmuxd_log in src/log.c is large enough.
use usbmuxd.Prelude.{
  Bool, Bool-cases, List, Option, [], ap, arith, false, if◌then◌else◌, inl, inr, length,
  length-append, le→ltb, ltb, lt→ltb, none, refl, some, true, ℕ, ◌++◌, ◌+◌, ◌/◌, ◌<◌, ◌∷◌, ◌≡◌, ◌≤◌,
}
use usbmuxd.World.{Outcome, World, fault, hang, ret}
use usbmuxd.Client.Replies.{decimal, decimal_digits}
use usbmuxd.Log.{Log, Time, format_of, sprintf_into, stamped, tagged, usbmuxd_log}

one_digit : (n : ℕ) → n < 10 → length (decimal n) ≡ 1
unfolding decimal decimal_digits
one_digit n h = rw (lt→ltb n 10 h) refl

length-tagged : (level : ℕ) (fmt : List ℕ) → level < 10 → length (tagged level fmt) ≡ length fmt + 5
unfolding tagged
length-tagged level fmt h = omega (
  arith,
  length-append (decimal level) ((93 ∷ 32 ∷ []) ++ (fmt ++ (10 ∷ []))),
  length-append fmt (10 ∷ []),
  one_digit level h,
)

length-stamped :
    (t : Time) (level : ℕ) (fmt : List ℕ)
    → level < 10
    → t.usec < 1000000
    → length (stamped t level fmt) + 1 ≡ 20 + length fmt
unfolding stamped
length-stamped t level fmt h u =
    let small : t.usec / 1000 < 1000 = omega arith in
    rw (lt→ltb (t.usec / 1000) 1000 small) (omega (arith, length-tagged level fmt h))

module _ (t : Time) (level : ℕ) (fmt : List ℕ) (w : World) (h : level < 10)
    (u : t.usec < 1000000) where
  written :
      (capacity : ℕ) (text : List ℕ)
      → length text + 1 ≤ capacity
      → sprintf_into capacity text w ≡ ret text w
  written capacity text fits = rw (le→ltb capacity (length text + 1) fits) refl

  -- A level of one digit and a time of less than a second of microseconds: usbmuxd_log returns,
  -- within its buffer, and gives the format if and only if the level is at most that of the log.
  pub usbmuxd_log-fits :
      (l : Log)
      → usbmuxd_log l level t fmt w
        ≡ ret (if ltb l.log_level level then none else some (format_of l level t fmt)) w
  unfolding usbmuxd_log
  usbmuxd_log-fits l = elim (Bool-cases (ltb l.log_level level)) [
    | inl e ↦ rw e refl
    | inr e ↦
        rw e (ap passed (written (20 + length fmt) (format_of l level t fmt) (fits l.log_syslog)))
  ]
    where
      passed : Outcome (List ℕ) → Outcome (Option (List ℕ))
      passed o = elim o [ ret a w' ↦ ret (some a) w' | fault ↦ fault | hang ↦ hang ]

      fits :
          (b : Bool)
          → length (if b then tagged level fmt else stamped t level fmt) + 1 ≤ 20 + length fmt
      fits true = omega (arith, length-tagged level fmt h)
      fits false = omega (arith, length-stamped t level fmt h u)
