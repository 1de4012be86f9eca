-- ===== src/Format/JournalState.antt =====
-- `JournalState` of src/upstream/journal-def.h; `max` is `_STATE_MAX`.
use jio.Base.{ℕ}

abbrev pub offline : ℕ
offline = 0

abbrev pub online : ℕ
online = 1

abbrev pub archived : ℕ
archived = 2

abbrev pub max : ℕ
max = 3
