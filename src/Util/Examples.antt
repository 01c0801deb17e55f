-- ===== src/Util/Examples.antt =====
-- Runs of the chunk allocator and the validator at concrete inputs.
use protobluff.Common.{◌≡◌, refl, arith, inr, some, [], ◌∷◌}
use protobluff.Core.Types.{uint32, absent, required, optional, ok}
use protobluff.Core.Descriptor.{FieldDescriptor, nothing, Descriptor, last}
use protobluff.Util.ChunkAllocator.{Pool, Allocated, find_chunk, allocator_resize}
use protobluff.Util.ChunkAllocator.Laws.{Serves, resize-Serves}
use protobluff.Util.Validator.{missing_field}
use protobluff.Util.Validator.Laws.{missing_field-first}

-- Two blocks of 64 bytes.
abbrev pool : Pool
pool = record {
  minimum = 64;
  chunks =
      record { address = 1000; capacity = 64; bytes = 80 }
      ∷ record { address = 2000; capacity = 64; bytes = 80 }
      ∷ [];
}

found-1000 : find_chunk pool.chunks 1000 ≡ ok (record { address = 1000; capacity = 64; bytes = 80 })
unfolding find_chunk
found-1000 = refl

-- The first block moves to another address.
resize-Serves_example :
    (r : Allocated) × (allocator_resize (some 3000) (some pool) (some 1000) 100 ≡ ok r)
    × Serves pool 1000 100 r
resize-Serves_example =
    resize-Serves pool 1000 100 3000 (record { address = 1000; capacity = 64; bytes = 80 })
      (omega arith) (omega arith) (omega arith) found-1000 (inr (refl, (refl, tt)))

abbrev name_field : FieldDescriptor
name_field = record {
  tag = 1;
  type = uint32;
  label = required;
  refer = 0;
  value = nothing;
  flags = 0;
}

abbrev size_field : FieldDescriptor
size_field = record {
  tag = 2;
  type = uint32;
  label = optional;
  refer = 0;
  value = nothing;
  flags = 0;
}

abbrev kind : Descriptor
kind = last (record { address = 100; fields = size_field ∷ name_field ∷ [] })

missing_field-first_example : missing_field kind (2 ∷ []) ≡ absent
missing_field-first_example = missing_field-first kind (2 ∷ []) (omega arith)
