-- ===== src/Process/Record.antt =====
-- internal/process/log_v2.go: `encodeProcessLogRecord` and `readProcessLogRecordAt`. The checksum is a
-- parameter, a function of the bytes of which 32 bits are stored. A read at a position is a read of the
-- bytes from there on.
pub mod RoundTrip
use remote_code.Prelude.{
  ℕ, zero, suc, ◌+◌, ◌/◌, ◌%◌, ◌^◌, ◌==◌, ltb, Bool, true, false, not, ◌||◌, Option, none, some,
  List, [], ◌∷◌, ◌++◌, length, take, drop, Checked, accept, reject, reject_if, or_reject,
  ◌and_then◌, if◌then◌else◌,
}
use remote_code.Process.Bytes.{Bytes, put_uint, uint}

pub data LogStream : Type 0 where
  stdout stderr : LogStream

-- The time is the bit pattern of its nanoseconds.
pub record LogRecord : Type 0 where
  pub offset : ℕ
  pub line_offset : ℕ
  pub timestamp : ℕ
  pub stream : LogStream
  pub flags : ℕ
  pub payload : Bytes

pub data ReadError : Type 0 where
  -- io.EOF and io.ErrUnexpectedEOF
  end_of_file : ReadError
  bad_magic bad_length bad_footer bad_checksum bad_stream : ReadError

abbrev pub record_magic : ℕ
record_magic = 0x52434c32

abbrev pub record_header : ℕ
record_header = 44

abbrev pub record_footer : ℕ
record_footer = 4

abbrev pub max_log_frame_bytes : ℕ
max_log_frame_bytes = 65536

-- 1 is the flag of a line's start, 2 the flag of its end.
abbrev pub line_start : LogRecord → Bool
line_start r = r.flags % 2 == 1

abbrev pub line_end : LogRecord → Bool
line_end r = r.flags / 2 % 2 == 1

abbrev pub stream_number : LogStream → ℕ
stream_number stdout = 1
stream_number stderr = 2

abbrev pub read_stream : ℕ → Option LogStream
read_stream n = if n == 1 then some stdout else if n == 2 then some stderr else none

abbrev pub record_size : LogRecord → ℕ
record_size r = record_header + length r.payload + record_footer

-- The offset after one, in 64 bits.
abbrev pub offset_after : ℕ → ℕ
offset_after n = suc n % 2 ^ 64

-- Bytes 8 to 40 of a record, the last two of which are 0.
unfoldable pub fields : LogRecord → Bytes
fields r =
    put_uint 8 r.offset
    ++ put_uint 8 r.line_offset
    ++ put_uint 8 r.timestamp
    ++ put_uint 4 (length r.payload)
    ++ stream_number r.stream ∷ r.flags ∷ 0 ∷ 0 ∷ []

abbrev pub slice : ℕ → ℕ → Bytes → Bytes
slice from count bytes = take count (drop from bytes)

abbrev pub first_byte : Bytes → ℕ
first_byte [] = 0
first_byte (b ∷ bytes) = b

module _ (checksum : Bytes → ℕ) where
  abbrev pub sum32 : Bytes → ℕ
  sum32 bytes = checksum bytes % 2 ^ 32

  unfoldable pub header : LogRecord → Bytes
  unfolding fields
  header r =
      put_uint 4 record_magic
      ++ put_uint 4 (record_size r)
      ++ fields r
      ++ put_uint 4 (sum32 (fields r ++ r.payload))

  unfoldable pub encode_record : LogRecord → Bytes
  unfolding header
  encode_record r = header r ++ (r.payload ++ put_uint 4 (record_size r))

  -- What is read of a header and the payload and footer after it.
  unfoldable pub read_payload : Bytes → ℕ → Bytes → Checked ReadError LogRecord
  read_payload head count tail =
      reject_if (not (uint (drop count tail) == record_header + count + record_footer)) bad_footer (
        reject_if (not (uint (slice 40 4 head) == sum32 (slice 8 32 head ++ take count tail)))
          bad_checksum
          (or_reject (read_stream (first_byte (drop 36 head))) bad_stream and_then λ stream.
            accept (record {
              offset = uint (slice 8 8 head);
              line_offset = uint (slice 16 8 head);
              timestamp = uint (slice 24 8 head);
              stream = stream;
              flags = first_byte (drop 37 head);
              payload = take count tail;
            })))

  unfoldable pub read_tail : Bytes → ℕ → Bytes → Checked ReadError (LogRecord × Bytes)
  unfolding read_payload
  read_tail head count after =
      reject_if
        (ltb max_log_frame_bytes count
          || not (uint (slice 4 4 head) == record_header + count + record_footer))
        bad_length
        (reject_if (ltb (length after) (count + record_footer)) end_of_file (
          read_payload head count (take (count + record_footer) after) and_then λ r.
          accept (r, drop (count + record_footer) after)))

  -- The record at the start of the bytes, and the bytes after it.
  unfoldable pub read_record : Bytes → Checked ReadError (LogRecord × Bytes)
  unfolding read_tail
  read_record bytes =
      let head = take record_header bytes in
      reject_if (ltb (length bytes) record_header) end_of_file (
        reject_if (not (uint (slice 0 4 head) == record_magic)) bad_magic
          (read_tail head (uint (slice 32 4 head)) (drop record_header bytes)))
