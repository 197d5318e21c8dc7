-- ===== src/Notifications/Display.antt =====
-- `set_notification_display_time` of
-- web/frontend/src/app/modules/notifications/classes/notifications-static-methods.class.ts.
use hellogit.Common.{ℕ, ◌+◌, ◌*◌, ◌/◌, ◌≤◌, ◌<◌, if◌then◌else◌, ltb, leb, ◌&&◌, arith}

-- The milliseconds since the notification's time stamp: it may lie ahead, and it may be no date.
pub data Age : Type 0 where
  ahead no_date : Age
  past : ℕ → Age

pub data DisplayTime : Type 0 where
  now unknown : DisplayTime
  minutes hours days weeks : ℕ → DisplayTime

-- `seconds` is the age divided by 1000, not rounded, so a test at n seconds is one at 1000 n
-- milliseconds, and `Math.floor(seconds / n)` is a quotient by 1000 n.
unfoldable pub display_time : Age → DisplayTime
display_time ahead = now
display_time no_date = unknown
display_time (past ms) =
    if ltb ms 60000
    then now
    else if leb 60000 ms && ltb ms 3600000
    then minutes (ms / 60000)
    else if leb 3600000 ms && ltb ms 86400000
    then hours (ms / 3600000)
    else if leb 86400000 ms && ltb ms 604800000
    then days (ms / 86400000)
    else if leb 604800000 ms
    then weeks (ms / 604800000)
    else unknown

-- What a display time says of an age: so many whole units have passed, and no larger unit fits.
abbrev pub Says : DisplayTime → ℕ → Type 0
Says now ms = ms < 60000
Says unknown ms = ⊥
Says (minutes n) ms = (1 ≤ n) × (n < 60) × (n * 60000 ≤ ms) × (ms < (n + 1) * 60000)
Says (hours n) ms = (1 ≤ n) × (n < 24) × (n * 3600000 ≤ ms) × (ms < (n + 1) * 3600000)
Says (days n) ms = (1 ≤ n) × (n < 7) × (n * 86400000 ≤ ms) × (ms < (n + 1) * 86400000)
Says (weeks n) ms = (1 ≤ n) × (n * 604800000 ≤ ms) × (ms < (n + 1) * 604800000)

-- Whatever the age in the past, the text is true of it: the unit is the largest that fits, and the
-- number is that of the whole units that have passed.
pub display_time-Says : (ms : ℕ) → Says (display_time (past ms)) ms
unfolding display_time
display_time-Says ms = ground arith
