-- ===== src/Process/Segment.antt =====
-- internal/process/log_v2.go: one segment of a log. `createProcessLogSegment`, what `appendRecordLocked`
-- does to the active segment, and `rebuildProcessLogSegment`, which reads a segment back after a restart
-- and writes its indexes again. The index files are lists of entries; the files are opened, and writes
-- succeed or fail as a whole, since a failed one is rolled back.
pub mod Scans
pub mod Rebuilds
use remote_code.Prelude.{
  ℕ, zero, suc, ◌+◌, ◌%◌, ◌==◌, ltb, Bool, true, false, not, ◌&&◌, ◌||◌, List, [], ◌∷◌, ◌++◌,
  length, take, drop, Checked, accept, reject, reject_if, ◌and_then◌, if◌then◌else◌,
}
use remote_code.Process.Bytes.{Bytes, put_uint, uint}
use remote_code.Process.Record.{
  LogStream, stdout, stderr, LogRecord, ReadError, end_of_file, line_end, record_size,
  encode_record, offset_after, slice, read_record,
}

abbrev pub segment_header : ℕ
segment_header = 32

abbrev pub index_stride : ℕ
index_stride = 256

abbrev pub segment_magic : Bytes
segment_magic = b'R' ∷ b'C' ∷ b'L' ∷ b'O' ∷ b'G' ∷ b'V' ∷ b'2' ∷ b'\n' ∷ []

abbrev pub format_version : ℕ
format_version = 2

pub record LineEntry : Type 0 where
  pub start : ℕ
  pub last : ℕ
  pub entry_time : ℕ

pub record OffsetEntry : Type 0 where
  pub entry_offset : ℕ
  pub position : ℕ

pub record Segment : Type 0 where
  pub first : ℕ
  pub next : ℕ
  pub log_file : Bytes
  pub offset_index : List OffsetEntry
  pub stdout_index : List LineEntry
  pub stderr_index : List LineEntry

unfoldable pub create_segment : ℕ → ℕ → Segment
create_segment first created = record {
  first = first;
  next = first;
  log_file =
      segment_magic
      ++ put_uint 4 format_version
      ++ put_uint 4 segment_header
      ++ put_uint 8 first
      ++ put_uint 8 created;
  offset_index = [];
  stdout_index = [];
  stderr_index = [];
}

-- Every 256th record has an entry of the offset index.
unfoldable pub index_offset : LogRecord → ℕ → Segment → Segment
index_offset r position s =
    if r.offset % index_stride == 0
    then record s {
      offset_index = s.offset_index ++ record { entry_offset = r.offset; position = position } ∷ [];
    }
    else s

unfoldable pub add_line : LogStream → LineEntry → Segment → Segment
add_line stdout entry s = record s { stdout_index = s.stdout_index ++ entry ∷ [] }
add_line stderr entry s = record s { stderr_index = s.stderr_index ++ entry ∷ [] }

unfoldable pub index_line : LogRecord → Segment → Segment
unfolding add_line
index_line r s =
    if line_end r
    then add_line r.stream
        (record { start = r.line_offset; last = r.offset; entry_time = r.timestamp }) s
    else s

module _ (checksum : Bytes → ℕ) where
  unfoldable pub append_record : LogRecord → Segment → Segment
  unfolding index_offset index_line
  append_record r s =
      let indexed = index_line r (index_offset r (length s.log_file) s) in
      record indexed {
        log_file = s.log_file ++ encode_record checksum r;
        next = offset_after r.offset;
      }

  unfoldable pub append_records : List LogRecord → Segment → Segment
  unfolding append_record
  append_records [] s = s
  append_records (r ∷ rs) s = append_records rs (append_record r s)

unfoldable pub bytes_eq : Bytes → Bytes → Bool
bytes_eq [] [] = true
bytes_eq (a ∷ xs) (b ∷ ys) = a == b && bytes_eq xs ys
bytes_eq xs ys = false

pub data RebuildError : Type 0 where
  short_header bad_header offset_gap record_gap out_of_fuel : RebuildError
  bad_record : ReadError → RebuildError

pub record Rebuilt : Type 0 where
  pub segment : Segment
  pub records : List LogRecord
  pub truncated : Bool

unfoldable pub read_failed :
    ReadError → Bytes → ℕ → Segment → List LogRecord → Checked RebuildError Rebuilt
read_failed end_of_file file position s records = accept (record {
  segment = record s { log_file = take position file };
  records = records;
  truncated = ltb position (length file);
})
read_failed e file position s records = reject (bad_record e)

unfoldable pub when_read {ℓ} :
    {A : Type 0} {B : Type ℓ} → Checked ReadError A → (ReadError → B) → (A → B) → B
when_read (accept a) failed read = read a
when_read (reject e) failed read = failed e

module _ (checksum : Bytes → ℕ) where
  -- The loop over the records of a file, at the bytes from the position on. Its fuel is more than the
  -- records that a file of this size can hold.
  unfoldable pub scan :
      ℕ → Bytes → Bytes → ℕ → Segment → List LogRecord → Checked RebuildError Rebuilt
  unfolding read_failed index_offset index_line when_read
  scan zero file bytes position s records = reject out_of_fuel
  scan (suc fuel) file bytes position s records =
      when_read (read_record checksum bytes) (λ e. read_failed e file position s records)
        λ p. reject_if (not (p.0.offset == s.next)) record_gap (
          scan fuel file p.1 (position + record_size p.0)
            (record (index_line p.0 (index_offset p.0 position s)) { next = offset_after s.next })
            (records ++ p.0 ∷ []))

  unfoldable pub rebuild_segment : ℕ → Bytes → Checked RebuildError Rebuilt
  unfolding scan bytes_eq
  rebuild_segment expected file =
      let first = uint (slice 16 8 file) in
      reject_if (ltb (length file) segment_header) short_header (
        reject_if
          (not (bytes_eq (take 8 file) segment_magic)
            || not (uint (slice 8 4 file) == format_version)
            || not (uint (slice 12 4 file) == segment_header))
          bad_header
          (reject_if (not (first == expected)) offset_gap (
            scan (suc (length file)) file (drop segment_header file) segment_header
              (record {
                first = first;
                next = first;
                log_file = file;
                offset_index = [];
                stdout_index = [];
                stderr_index = [];
              })
              [])))
