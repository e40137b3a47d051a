-- ===== src/Process/Record/RoundTrip.antt =====
-- internal/process/log_v2.go: an encoded record reads back.
use mathlib.Core.List.{append_assoc}
use remote_code.Prelude.{
  ℕ, ◌+◌, ◌^◌, ◌≤◌, ◌<◌, ◌≡◌, refl, sym, ap, ◌∙◌, ltb, false, ◌++◌, length, length-append, take,
  drop, accept, reject, length-take-le, take_append, drop_append, take_past, passes, stops,
  equal_passes, Bool-cases, inl, inr, ◌-◌, or_reject, ◌and_then◌, if◌then◌else◌, arith, some,
}
use remote_code.Process.Bytes.{Bytes, put_uint, uint, uint-put_uint}
use remote_code.Process.Record.{
  LogStream, stdout, stderr, LogRecord, end_of_file, record_magic, record_header, record_footer,
  max_log_frame_bytes, stream_number, read_stream, record_size, fields, header, encode_record,
  slice, first_byte, sum32, read_payload, read_tail, read_record,
}

-- Numbers of 64 bits, and a payload of at most one frame.
pub record IsStorable (r : LogRecord) : Type 0 where
  pub offset_fits : r.offset < 2 ^ 64
  pub line_fits : r.line_offset < 2 ^ 64
  pub time_fits : r.timestamp < 2 ^ 64
  pub one_frame : length r.payload ≤ max_log_frame_bytes

module _ (checksum : Bytes → ℕ) (r : LogRecord) (h : IsStorable r) where
  header-take : (more : Bytes) → take record_header (header checksum r ++ more) ≡ header checksum r
  unfolding header fields put_uint
  header-take more = refl

  header-drop : (more : Bytes) → drop record_header (header checksum r ++ more) ≡ more
  unfolding header fields put_uint
  header-drop more = refl

  header-length : (more : Bytes) → ltb (length (header checksum r ++ more)) record_header ≡ false
  unfolding header fields put_uint
  header-length more = ground arith

  header_magic : uint (slice 0 4 (header checksum r)) ≡ record_magic
  unfolding header fields put_uint uint
  header_magic = refl

  header_size : uint (slice 4 4 (header checksum r)) ≡ record_size r
  unfolding header fields put_uint
  header_size = uint-put_uint 4 (record_size r) (omega (arith, h.one_frame))

  header_count : uint (slice 32 4 (header checksum r)) ≡ length r.payload
  unfolding header fields put_uint
  header_count = uint-put_uint 4 (length r.payload) (omega (arith, h.one_frame))

  header_sum : uint (slice 40 4 (header checksum r)) ≡ sum32 checksum (fields r ++ r.payload)
  unfolding header fields put_uint
  header_sum = uint-put_uint 4 (sum32 checksum (fields r ++ r.payload)) (omega arith)

  header-fields : slice 8 32 (header checksum r) ≡ fields r
  unfolding header fields put_uint
  header-fields = refl

  header_offset : uint (slice 8 8 (header checksum r)) ≡ r.offset
  unfolding header fields put_uint
  header_offset = uint-put_uint 8 r.offset (omega (arith, h.offset_fits))

  header_line : uint (slice 16 8 (header checksum r)) ≡ r.line_offset
  unfolding header fields put_uint
  header_line = uint-put_uint 8 r.line_offset (omega (arith, h.line_fits))

  header_time : uint (slice 24 8 (header checksum r)) ≡ r.timestamp
  unfolding header fields put_uint
  header_time = uint-put_uint 8 r.timestamp (omega (arith, h.time_fits))

  header_stream : read_stream (first_byte (drop 36 (header checksum r))) ≡ some r.stream
  unfolding header fields put_uint if◌then◌else◌
  header_stream = stream_reads r.stream
    where
      stream_reads : (s : LogStream) → read_stream (stream_number s) ≡ some s
      stream_reads stdout = refl
      stream_reads stderr = refl

  header_flags : first_byte (drop 37 (header checksum r)) ≡ r.flags
  unfolding header fields put_uint
  header_flags = refl

  footer : Bytes
  footer = put_uint 4 (record_size r)

  read_payload-encoded :
      read_payload checksum (header checksum r) (length r.payload) (r.payload ++ footer) ≡ accept r
  unfolding read_payload or_reject ◌and_then◌ footer
  read_payload-encoded =
      let taken = take_append r.payload (put_uint 4 (record_size r)) in
      let left = drop_append r.payload (put_uint 4 (record_size r)) in
      passes _ _ _ _
        (equal_passes _ _
          (ap uint left ∙ uint-put_uint 4 (record_size r) (omega (arith, h.one_frame))))
        (passes _ _ _ _ (equal_passes _ _ (header_sum ∙ sym (rw (header-fields, taken) refl)))
          (rw (header_stream, header_offset, header_line, header_time, header_flags, taken) refl))

  tail-length : length (r.payload ++ footer) ≡ length r.payload + record_footer
  unfolding footer put_uint
  tail-length = length-append r.payload (put_uint 4 (record_size r))

  read_tail-encoded :
      (more : Bytes)
      → read_tail checksum (header checksum r) (length r.payload) ((r.payload ++ footer) ++ more)
        ≡ accept (r, more)
  unfolding read_tail ◌and_then◌
  read_tail-encoded more =
      let tail = r.payload ++ footer in
      let taken : take (length r.payload + record_footer) (tail ++ more) ≡ tail =
        ap (λ n. take n (tail ++ more)) (sym tail-length) ∙ take_append tail more in
      let left : drop (length r.payload + record_footer) (tail ++ more) ≡ more =
        ap (λ n. drop n (tail ++ more)) (sym tail-length) ∙ drop_append tail more in
      passes _ _ _ _ (ground (arith, header_size, h.one_frame)) (
        passes _ _ _ _ (ground (arith, length-append tail more, tail-length))
          (rw (taken, left, read_payload-encoded) refl))

  -- An encoded record, with more bytes behind it, reads back whole.
  pub read_record-encode_record :
      (more : Bytes) → read_record checksum (encode_record checksum r ++ more) ≡ accept (r, more)
  unfolding read_record encode_record footer
  read_record-encode_record more =
      let tail = (r.payload ++ put_uint 4 (record_size r)) ++ more in
      ap (read_record checksum)
        (append_assoc (header checksum r) (r.payload ++ put_uint 4 (record_size r)) more)
      ∙ passes _ _ _ _ (header-length tail) (
          passes _ _ _ _
            (equal_passes _ _ (ap (λ l. uint (slice 0 4 l)) (header-take tail) ∙ header_magic))
            (rw (header-take tail, header-drop tail, header_count) (read_tail-encoded more)))

  header_44 : length (header checksum r) ≡ record_header
  unfolding header fields put_uint
  header_44 = refl

  pub encoded-length : length (encode_record checksum r) ≡ record_size r
  unfolding encode_record header fields put_uint
  encoded-length = ground (arith, length-append r.payload (put_uint 4 (record_size r)))

  read_tail_short :
      (n : ℕ)
      → n < length r.payload + record_footer
      → read_tail checksum (header checksum r) (length r.payload) (take n (r.payload ++ footer))
        ≡ reject end_of_file
  unfolding read_tail
  read_tail_short n l =
      passes _ _ _ _ (ground (arith, header_size, h.one_frame))
        (stops _ _ _ (ground (arith, l, length-take-le n (r.payload ++ footer))))

  -- A record of which only a part was written reads as the end of the file.
  pub read_record_torn :
      (n : ℕ)
      → n < record_size r
      → read_record checksum (take n (encode_record checksum r)) ≡ reject end_of_file
  unfolding read_record encode_record footer
  read_record_torn n l = elim (Bool-cases (ltb n record_header)) [
    | inl short ↦ stops _ _ _ (ground (arith, short, length-take-le n (encode_record checksum r)))
    | inr long ↦
        let k = n - record_header in
        let more = take k (r.payload ++ put_uint 4 (record_size r)) in
        let split : n ≡ length (header checksum r) + k = ground (arith, header_44, long) in
        ap (read_record checksum)
          (take_past (header checksum r) (r.payload ++ put_uint 4 (record_size r)) n k split)
        ∙ passes _ _ _ _ (header-length more) (
            passes _ _ _ _
              (equal_passes _ _ (ap (λ l. uint (slice 0 4 l)) (header-take more) ∙ header_magic))
              (rw (header-take more, header-drop more, header_count)
                (read_tail_short k (ground (arith, l, long)))))
  ]
