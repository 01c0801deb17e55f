-- ===== src/Message/Part/Examples.antt =====
-- Runs of the edits of parts at concrete inputs.
use protobluff.Common.{ℕ, ◌-◌, ◌^◌, ◌≢◌, refl, arith, List, [], ◌∷◌, ◌++◌, drop}
use protobluff.Core.Heap.{heap, heap-IsAllocator}
use protobluff.Core.Buffer.{Buffer, custom}
use protobluff.Core.Buffer.Laws.{contents, IsValid}
use protobluff.Message.Journal
use protobluff.Message.Journal.{Journal, Offset}
use protobluff.Message.Journal.Rewrite.{Rewrites, write-Rewrites}
use protobluff.Message.Run.{State, out_of_fuel}
use protobluff.Message.Part.{Part}
use protobluff.Message.Part.Prefix.{adjust}
use protobluff.Message.Part.Edit.{part_write}
use protobluff.Message.Part.Ends.{adjust-ends}
use protobluff.Message.Part.Root.{Untouched, adjust-Untouched}
use protobluff.Message.Part.Shape.{IsField}
use protobluff.Message.Part.Grown.{front_of, Written}
use protobluff.Message.Part.Write.{part_write-Written}

-- A message with a field 1 that holds a message, which has a field 1 with the value 5.
abbrev outer : Buffer
outer = record { allocator = custom; block = 0x0A ∷ 0x02 ∷ 0x08 ∷ 0x05 ∷ []; size = 4 }

abbrev journal : Journal
journal = record { buffer = outer; room = []; entries = [] }

abbrev nested : State Unit
nested = record { journal = journal; memory = tt }

outer-IsValid : IsValid outer
outer-IsValid = record { holds = omega arith; small = omega arith; not_null = λ e. cc }

-- The inner field.
abbrev inner : Part
inner = record {
  version = 0;
  offset = record {
    start = 3;
    end = 4;
    diff_origin = 2 ^ 64 - 1;
    diff_tag = 2 ^ 64 - 1;
    diff_length = 0;
  };
}

-- The field of the outermost message.
abbrev whole : Part
whole = record {
  version = 0;
  offset = record {
    start = 2;
    end = 4;
    diff_origin = 2 ^ 64 - 2;
    diff_tag = 2 ^ 64 - 2;
    diff_length = 2 ^ 64 - 1;
  };
}

whole-IsField : IsField 0 0 1 4 whole.offset
whole-IsField = record {
  after_start = omega arith;
  key = omega arith;
  prefix = omega arith;
  order = omega arith;
  inside = omega arith;
  to_origin = refl;
  to_tag = refl;
  to_length = refl;
}

abbrev bytes : List ℕ
bytes = 0x08 ∷ 0x80 ∷ 0x01 ∷ []

part_write-Written_example :
    Written 1
      (front_of whole 1 3 (contents outer))
      (bytes ++ drop 4 (contents outer))
      3
      whole
      journal
      (part_write heap whole bytes 3 nested)
part_write-Written_example =
    part_write-Written heap heap-IsAllocator whole 0 1 bytes nested outer-IsValid whole-IsField refl
      (omega arith) (omega arith)

adjust-Untouched_example : Untouched whole nested (adjust heap whole 1 nested)
adjust-Untouched_example =
    adjust-Untouched heap whole 1 (record { at_root = refl; has_tag = refl }) nested (omega arith)
      (omega arith)

adjust-ends_example : adjust heap inner 1 nested ≢ out_of_fuel
adjust-ends_example = adjust-ends heap inner 1 nested (omega arith) (omega arith)

write-Rewrites_example :
    Rewrites journal
      (record { origin = 3; offset = 4; delta = 1 })
      3
      (0x80 ∷ 0x01 ∷ [])
      (Journal.write heap tt journal 3 3 4 (0x80 ∷ 0x01 ∷ []) 2)
write-Rewrites_example =
    write-Rewrites heap heap-IsAllocator tt journal 3 3 4 (0x80 ∷ 0x01 ∷ []) 2 outer-IsValid
      (omega arith) (omega arith) (omega arith) (omega arith)
