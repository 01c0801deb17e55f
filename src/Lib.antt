-- ===== src/Lib.antt =====
-- protobluff: a Protocol Buffers implementation in C.
--
-- The program has three layers. The core writes and reads the wire format: varints (src/core/varint.c),
-- growable buffers on an allocator (src/core/buffer.c), descriptors that say which fields a message
-- has (src/core/descriptor.c), streams that read values from a buffer (src/core/stream.c), and on top
-- of these the encoder (src/core/encoder.c) and the decoder (src/core/decoder.c). The message layer
-- (src/message) edits messages in place, without decoding them: a buffer with ranges to write and clear
-- (buffer.c), a journal of the changes (journal.c), parts that follow the changes and update the length
-- prefixes around them (part.c), cursors that go from field to field (cursor.c), and on top of these fields,
-- messages, oneofs and paths of tags (field.c, message.c, oneof.c, nested.c). The utilities (src/util) are an
-- allocator in chunks and a validator on top of the decoder.
--
-- Files:
--   Common          shared names, lists and bit operations on the native numbers, widths of C
--   Core/Types      the enumerations of include/protobluff/core/common.h, and `Outcome`: a C function
--                   returns, reports an error, or has undefined behaviour (`fault`)
--   Core/Varint     size_*, pack_*, unpack_* and scan are pb_varint_size_*, pb_varint_pack_* and so on;
--                   size, pack and unpack are the jump tables. A pack function gives the bytes that it
--                   writes; an unpack function takes the block at `data` and `left`
--   Core/Memory     pb_allocator_t as a record of operations on a state, with the documented behaviour
--                   of malloc and realloc as laws; store and load are memcpy inside a block
--   Core/Buffer     pb_buffer_t: `block` is the memory at `data`; a pointer into it is an offset
--   Core/Text       pb_string_t of include/protobluff/core/string.h
--   Core/Descriptor field lookup, extension and enum lookup; a nested descriptor or a oneof is referred to by
--                   a number, an extension chain is a list of tables with their addresses
--   Core/Stream     pb_stream_t; read and skip are the two jump tables. Core/Encoder/Wire describes the
--                   bytes of a field in plain arithmetic, for the encoder and for what reads them
--   Core/Encoder    the encoding functions; every call answers its error with the buffer and the state
--                   of the allocator
--   Core/Decoder    the decoding loop; the handler is a parameter, a function on a state of its own
--   Message/Buffer  pb_buffer_write and pb_buffer_clear
--   Message/Journal pb_journal_write, pb_journal_clear and pb_journal_align
--   Message/Run     the state of the calls below, a journal with the memory of its allocator, and what a
--                   call comes to: an answer, undefined behaviour, or fuel that is used up
--   Message/Part    pb_part_t; Round and Prefix are adjust_recursive and adjust_prefix, Edit is pb_part_write,
--                   pb_part_clear and init
--   Message/Cursor  pb_message_t and pb_cursor_t; Scan and Next are the iteration, Create makes cursors, and
--                   Access reads, writes and erases at one
--   Message/Field   pb_field_t
--   Message/Create  pb_part_create and what makes messages and fields by it
--   Message/Message, Message/Oneof, Message/Nested
--                   the operations by tag, on a oneof, and along a path of tags
--   Util            ChunkAllocator and Validator, of src/util
--   Core/Heap       an allocator for the runs in the modules named Examples
--
-- Conventions: an integer of C is its bit pattern; size_t has 64 bits and the machine is little-endian.
-- Assertions are compiled out: what they demand of a caller is a hypothesis. A part, a message and a cursor
-- point to one journal, which is explicit state: a call is given it and answers it, and a copy of a part is the
-- part. Nested descriptors are looked up in `schema`. Dereferencing NULL and calling an entry of a jump table
-- that is not set are undefined behaviour. A shift of a negative number is that of its bit pattern, which the C
-- standard leaves undefined.
--
-- Fuel: the unrolled tests of the varint functions are structural recursion on their number, which is fixed
-- per width (4, 9 and 1 more bytes). The two loops of the decoder run for at most as many rounds as the stream
-- has bytes left, and a round that goes on reads a byte at least. adjust_recursive has one round more than
-- the buffer has bytes: a round and a recursive call begin behind the last one. The loop of `next` has one round
-- more than the end of the message, for the same reason; pb_cursor_next has two steps for each byte, since a
-- packed field is entered and left; the loops over a cursor move it by a byte at least. The validator goes
-- no deeper than its buffer has bytes.
--
-- Not modelled: the extension of a descriptor by itself or by a cyclic chain; the C library behind the default
-- allocator, which is a parameter; output for debugging and error strings; pb_string_init_from_chars; the names
-- of descriptors; what a failed move leaves in the offsets of a cursor; descriptor.proto's tables
-- (src/util/descriptor.c), which are data; the generator (src/generator), which is C++ on the protobuf compiler
-- library.
pub mod Common
pub mod Core
pub mod Message
pub mod Util
