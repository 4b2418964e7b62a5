-- ===== src/Clock.antt =====
-- The clock, as job_registry.py reads it. An instant is a number of microseconds. A timestamp is
-- the ISO text of an instant with `timespec="seconds"`: the whole seconds of the instant. Two such
-- texts of one format compare as their seconds do.
use db_collector_os.Prelude.{ℕ, ◌*◌, ◌/◌, ◌+◌}

abbrev pub second : ℕ
second = 1000000

-- datetime.now(timezone.utc).isoformat(timespec="seconds")
abbrev pub now_iso : ℕ → ℕ
now_iso now = now / 1000000

-- now_plus(seconds), with the seconds in microseconds
abbrev pub now_plus : ℕ → ℕ → ℕ
now_plus now delay = (now + delay) / 1000000

-- datetime.fromisoformat(timestamp)
abbrev pub from_iso : ℕ → ℕ
from_iso stamp = stamp * 1000000
