-- ===== src/Tests/Log.antt =====
-- The theorem on src/log.c at a short message.
use usbmuxd.Prelude.{arith, false, some, ◌≡◌}
use usbmuxd.Plist.{codes}
use usbmuxd.World.{ret}
use usbmuxd.Log.{Log, Time, format_of, usbmuxd_log}
use usbmuxd.Log.Fits.{usbmuxd_log-fits}
use usbmuxd.Tests.Fixture.{start}

abbrev noon : Time
noon = record { hour = 12; minute = 0; second = 5; usec = 34567 }

abbrev to_stderr : Log
to_stderr = record { log_level = 4; log_syslog = false; is_open = false }

usbmuxd_log-fits_example :
    usbmuxd_log to_stderr 3 noon (codes "up") start
    ≡ ret (some (format_of to_stderr 3 noon (codes "up"))) start
usbmuxd_log-fits_example =
    usbmuxd_log-fits noon 3 (codes "up") start (omega arith) (omega arith) to_stderr
