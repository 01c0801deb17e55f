-- ===== src/Message/Journal/Steps.antt =====
-- `pb_journal_align` of src/message/journal.c on a part that is aligned on the way.
use protobluff.Common.{ℕ, Bool, false, if◌then◌else◌, drop}
use protobluff.Core.Types.{Error, no_error, invalid}
use protobluff.Message.Journal.{Offset, Journal, align_entries, aligned}

-- The answers, by what they depend on.
abbrev aligned_answer : ℕ → Offset → Bool → Error × ℕ × Offset
aligned_answer v o b = (if b then invalid else no_error, v, o)

abbrev align_answer : Journal → ℕ → Offset → Bool → Error × ℕ × Offset
align_answer j version o b =
    if b
    then aligned (align_entries (drop version j.entries) version o false)
    else (invalid, version, o)
