-- ===== src/Message/Field/Examples.antt =====
-- A run of a field at a concrete input.
use protobluff.Common.{◌-◌, ◌^◌, ◌≡◌, refl, ap, arith, some, [], ◌∷◌, length}
use protobluff.Core.Types.{no_error, uint32, optional}
use protobluff.Core.Heap.{zeros, heap, heap-IsAllocator}
use protobluff.Core.Buffer.{Buffer, custom, valid, data_from}
use protobluff.Core.Descriptor.{FieldDescriptor, nothing, wiretype_map}
use protobluff.Core.Stream.{number}
use protobluff.Core.Encoder.{Input}
use protobluff.Core.Encoder.Wire.{wire_scalar}
use protobluff.Core.Varint.Base128.{base128}
use protobluff.Message.Journal.{Journal, Entry}
use protobluff.Message.Run.{State, done}
use protobluff.Message.Field.{Field, field_put, field_get}
use protobluff.Message.Field.RoundTrip.{field_put-get}
use protobluff.Message.Field.{put_described, put_raw, raw_value, with_length, field_valid}
use protobluff.Message.Part.{part_valid, realign, part_aligned, part_align, part_size, part_empty}
use protobluff.Message.Part.Edit.{
  part_write, write_aligned, behind_write, own_prefix, others, aligned_again,
}
use protobluff.Message.Part.Prefix.{
  adjust, adjust_recursive, adjust_step, closed, adjust_prefix, prefixed,
}
use protobluff.Message.Part.Round.{adjust_round, tag_round, length_round, judge, field_offset}
use protobluff.Core.Stream.{create_at, advance, read, read_varint, skip, skip_varint}
use protobluff.Core.Memory.{load}
use protobluff.Core.Varint
use protobluff.Message.Journal
use protobluff.Message.Buffer

abbrev count : FieldDescriptor
count = record { tag = 2; type = uint32; label = optional; refer = 0; value = nothing; flags = 0 }

-- The value of the field becomes 300: it takes one byte more.
abbrev buffer : Buffer
buffer = record { allocator = custom; block = 0x10 ∷ 0x05 ∷ []; size = 2 }

abbrev before : State Unit
before = record { journal = record { buffer = buffer; room = []; entries = [] }; memory = tt }

abbrev count_field : Field
count_field = record {
  descriptor = some count;
  part = record {
    version = 0;
    offset = record {
      start = 1;
      end = 2;
      diff_origin = 2 ^ 64 - 1;
      diff_tag = 2 ^ 64 - 1;
      diff_length = 0;
    };
  };
}

abbrev after : State Unit
after = record {
  journal = record {
    buffer = record { allocator = custom; block = 0x10 ∷ 0xAC ∷ 0x02 ∷ []; size = 3 };
    room = zeros 24;
    entries = record { origin = 1; offset = 2; delta = 1 } ∷ [];
  };
  memory = tt;
}

abbrev written : Field
written = record {
  descriptor = some count;
  part = record {
    version = 1;
    offset = record {
      start = 1;
      end = 3;
      diff_origin = 2 ^ 64 - 1;
      diff_tag = 2 ^ 64 - 1;
      diff_length = 0;
    };
  };
}

wire-300 : wire_scalar uint32 300 ≡ 0xAC ∷ 0x02 ∷ []
unfolding wire_scalar base128
wire-300 = refl

put-run : field_put heap count_field (Input.number 300) before ≡ done ((no_error, written), after)
unfolding field_put put_described put_raw raw_value with_length field_valid part_valid realign
    part_aligned part_align part_size part_empty part_write write_aligned behind_write own_prefix
    others aligned_again adjust adjust_recursive adjust_step closed adjust_prefix prefixed
    adjust_round tag_round length_round judge field_offset create_at advance read read_varint skip
    skip_varint load valid wiretype_map Varint.pack Varint.pack_uint32 Varint.pack_rounds
    Varint.unpack Varint.unpack_uint32 Varint.unpack_width Varint.unpack_rounds Varint.result
    Varint.scan Varint.scan_loop Journal.write Journal.edit_journal Journal.journaled Journal.push
    Journal.pushed Journal.settled Buffer.write Buffer.write_range Buffer.write_grown Buffer.shifted
    Buffer.memmove Buffer.copied data_from
put-run = refl

field_put-get_example :
    field_get after.journal written ≡ done ((no_error, some (number 300)), written)
field_put-get_example =
    field_put-get heap heap-IsAllocator count_field written count 300 0 before after refl
      (omega arith) (record { holds = omega arith; small = omega arith; not_null = λ e. cc })
      (record {
        after_start = omega arith;
        key = omega arith;
        prefix = omega arith;
        order = omega arith;
        inside = omega arith;
        to_origin = refl;
        to_tag = refl;
        to_length = refl;
      })
      refl (omega (arith, ap length wire-300)) (omega arith) (omega arith) put-run
