-- ===== src/Process/Segment/Rebuilds.antt =====
-- internal/process/log_v2.go: a segment that is read back is the segment that was written.
use mathlib.Core.List.{append_assoc}
use remote_code.Prelude.{
  ℕ, suc, ◌^◌, ◌<◌, ◌≡◌, refl, sym, ap, ◌∙◌, ltb, Bool, true, false, not, ◌||◌, List, [], ◌++◌,
  length, length-append, take, drop, Checked, accept, arith, take_append, passes, equal_passes,
  length-take,
}
use remote_code.Process.Bytes.{Bytes, put_uint, uint, uint-put_uint}
use remote_code.Process.Record.{LogRecord, record_size, encode_record, slice}
use remote_code.Process.Record.RoundTrip.{IsStorable, read_record_torn, encoded-length}
use remote_code.Process.Segment.{
  Segment, segment_magic, format_version, segment_header, create_segment, append_records,
  RebuildError, Rebuilt, scan, rebuild_segment, bytes_eq,
}
use remote_code.Process.Segment.Scans.{
  Follows, encoded, read_back, append_records-file, scan-append_records, length-encoded,
}

-- The header of a segment's file.
module _ (first created : ℕ) where
  abbrev file_header : Bytes
  file_header = (create_segment first created).log_file

  header-length : (more : Bytes) → ltb (length (file_header ++ more)) segment_header ≡ false
  unfolding create_segment put_uint
  header-length more = ground arith

  header_magic : (more : Bytes) → bytes_eq (take 8 (file_header ++ more)) segment_magic ≡ true
  unfolding create_segment put_uint bytes_eq
  header_magic more = refl

  header_version : (more : Bytes) → uint (slice 8 4 (file_header ++ more)) ≡ format_version
  unfolding create_segment put_uint uint
  header_version more = refl

  header_size : (more : Bytes) → uint (slice 12 4 (file_header ++ more)) ≡ segment_header
  unfolding create_segment put_uint uint
  header_size more = refl

  header_first : (more : Bytes) → first < 2 ^ 64 → uint (slice 16 8 (file_header ++ more)) ≡ first
  unfolding create_segment put_uint
  header_first more fits = uint-put_uint 8 first (omega (arith, fits))

  header-drop : (more : Bytes) → drop segment_header (file_header ++ more) ≡ more
  unfolding create_segment put_uint
  header-drop more = refl

  header_32 : length file_header ≡ segment_header
  unfolding create_segment put_uint
  header_32 = refl

module _ (checksum : Bytes → ℕ) where
  rebuild_opens :
      (first created : ℕ) (more : Bytes)
      → first < 2 ^ 64
      → rebuild_segment checksum first (file_header first created ++ more)
        ≡ scan checksum
            (suc (length (file_header first created ++ more)))
            (file_header first created ++ more)
            more
            segment_header
            (record (create_segment first created) { log_file = file_header first created ++ more })
            []
  unfolding rebuild_segment create_segment
  rebuild_opens first created more fits =
      let file = file_header first created ++ more in
      let opened : ℕ → Bytes → Checked RebuildError Rebuilt = λ n bytes.
        scan checksum (suc (length file)) file bytes segment_header
          (record {
            first = n;
            next = n;
            log_file = file;
            offset_index = [];
            stdout_index = [];
            stderr_index = [];
          })
          [] in
      passes _ _ _ _ (header-length first created more) (
        passes _ _ _ _
          (all_pass _ _ _ (header_magic first created more)
            (equal_passes _ _ (header_version first created more))
            (equal_passes _ _ (header_size first created more)))
          (passes _ _ _ _ (equal_passes _ first (header_first first created more fits)) (
            ap (λ n. opened n (drop segment_header file)) (header_first first created more fits)
            ∙ ap (opened first) (header-drop first created more))))
    where
      all_pass : (a b c : Bool) → a ≡ true → b ≡ false → c ≡ false → (not a || b || c) ≡ false
      all_pass a b c p q r = ground (arith, p, q, r)

  read_back_whole :
      (s : Segment) (last : LogRecord) (rs : List LogRecord) (n : ℕ)
      → IsStorable last
      → n < record_size last
      → read_back (s.log_file ++ take n (encode_record checksum last)) s rs
        ≡ record { segment = s; records = rs; truncated = ltb 0 n }
  unfolding read_back
  read_back_whole s last rs n h l =
      let torn = take n (encode_record checksum last) in
      let size : length torn ≡ n =
        length-take n (encode_record checksum last)
          (omega (arith, l, encoded-length checksum last h)) in
      let same : ltb (length s.log_file) (length (s.log_file ++ torn)) ≡ ltb 0 n =
        ground (arith, length-append s.log_file torn, size) in
      rw (take_append s.log_file torn, same) refl

-- A segment whose last record was written in part only is read back as it was before that record, with
-- all of its records and the indexes that were kept while they were written.
pub rebuild_segment-append_records :
    (checksum : Bytes → ℕ) (first created : ℕ) (rs : List LogRecord) (last : LogRecord) (n : ℕ)
    → first < 2 ^ 64
    → Follows first rs
    → IsStorable last
    → n < record_size last
    → rebuild_segment checksum first (
        (append_records checksum rs (create_segment first created)).log_file
        ++ take n (encode_record checksum last))
      ≡ accept (record {
        segment = append_records checksum rs (create_segment first created);
        records = rs;
        truncated = ltb 0 n;
      })
unfolding create_segment
rebuild_segment-append_records checksum first created rs last n fits f h l =
    let start = create_segment first created in
    let s = append_records checksum rs start in
    let torn = take n (encode_record checksum last) in
    let more = encoded checksum rs ++ torn in
    let file : s.log_file ++ torn ≡ start.log_file ++ more =
      ap (λ b. b ++ torn) (append_records-file checksum rs start)
      ∙ append_assoc start.log_file (encoded checksum rs) torn in
    ap (rebuild_segment checksum first) file
    ∙ rebuild_opens checksum first created more fits
    ∙ ap
        (λ position.
          scan checksum (suc (length (start.log_file ++ more))) (start.log_file ++ more) more
            position (record start { log_file = start.log_file ++ more }) [])
        (sym (header_32 first created))
    ∙ scan-append_records checksum rs (suc (length (start.log_file ++ more))) start
        (start.log_file ++ more) torn [] f
        (omega (
          arith,
          length-append start.log_file more,
          length-append (encoded checksum rs) torn,
          length-encoded checksum rs,
        ))
        (read_record_torn checksum last h n l)
    ∙ ap (λ b. accept (read_back b s rs)) (sym file)
    ∙ ap (λ (r : Rebuilt). accept r) (read_back_whole checksum s last rs n h l)
