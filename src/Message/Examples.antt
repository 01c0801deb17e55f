-- ===== src/Message/Examples.antt =====
-- Runs of the edits at concrete inputs.
use protobluff.Common.{arith, inl, [], ◌∷◌}
use protobluff.Core.Heap.{heap, heap-IsAllocator}
use protobluff.Core.Buffer.{Buffer, custom}
use protobluff.Core.Buffer.Laws.{IsValid}
use protobluff.Message.Buffer.{write, clear}
use protobluff.Message.Buffer.Clear.{Removes, clear-Removes}
use protobluff.Message.Buffer.Splice.{Splices, write-Splices}
use protobluff.Message.Journal
use protobluff.Message.Journal.{Journal, Entry, Offset}
use protobluff.Message.Journal.Follow.{FollowsIn, align-write}
use protobluff.Message.Journal.Laws.{Kept, write-Kept}

abbrev four : Buffer
four = record { allocator = custom; block = 1 ∷ 2 ∷ 3 ∷ 4 ∷ []; size = 4 }

four-IsValid : IsValid four
four-IsValid = record { holds = omega arith; small = omega arith; not_null = λ e. cc }

-- 2 and 3 are replaced by one byte.
write-Splices_example : Splices four 1 3 (9 ∷ []) (write heap tt four 1 3 (9 ∷ []) 1)
write-Splices_example =
    write-Splices heap heap-IsAllocator tt four 1 3 (9 ∷ []) 1 four-IsValid (omega arith)
      (omega arith) (omega arith) (omega arith)

-- 2 and 3 are removed.
clear-Removes_example : Removes four 1 3 (clear heap tt four 1 3)
clear-Removes_example =
    clear-Removes heap heap-IsAllocator tt four 1 3 four-IsValid (omega arith) (omega arith)
      (omega arith)

abbrev entry : Entry
entry = record { origin = 0; offset = 1; delta = 2 }

abbrev journal : Journal
journal = record { buffer = four; room = []; entries = entry ∷ [] }

write-Kept_example : Kept journal (Journal.write heap tt journal 0 1 3 (9 ∷ []) 1)
write-Kept_example = write-Kept heap tt journal 0 1 3 (9 ∷ []) 1

-- The part behind the change is moved by two bytes.
abbrev part : Offset
part = record { start = 2; end = 3; diff_origin = 0; diff_tag = 0; diff_length = 0 }

abbrev moved_part : Offset
moved_part = record { start = 4; end = 5; diff_origin = 0; diff_tag = 0; diff_length = 0 }

-- One more entry in the journal.
abbrev later : Journal
later = record journal { entries = entry ∷ (entry ∷ []) }

-- The last byte is followed behind a change of the two bytes in front of it.
abbrev last_byte : Offset
last_byte = record { start = 3; end = 4; diff_origin = 0; diff_tag = 0; diff_length = 0 }

align-write_example : FollowsIn last_byte journal (Journal.write heap tt journal 0 1 3 (9 ∷ []) 1)
align-write_example =
    align-write heap heap-IsAllocator tt journal last_byte 0 1 3 (9 ∷ []) four-IsValid (omega arith)
      (omega arith) (omega arith) (omega arith) (omega arith) (omega arith) (omega arith)
      (omega arith) (inl (omega arith, omega arith, omega arith))
