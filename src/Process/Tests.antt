-- ===== src/Process/Tests.antt =====
-- internal/process/log_v2.go: the theorems at two lines of output, the second of which is not ended, with
-- the sum of the bytes in the place of the checksum.
use remote_code.Prelude.{
  ℕ, ◌+◌, ◌≡◌, refl, Bool, true, false, some, [], ◌∷◌, ◌++◌, take, accept, reject, arith,
}
use remote_code.Process.Bytes.{Bytes}
use remote_code.Process.Record.{stdout, LogRecord, end_of_file, encode_record, read_record}
use remote_code.Process.Record.RoundTrip.{IsStorable, read_record-encode_record, read_record_torn}
use remote_code.Process.Segment.{create_segment, append_records, rebuild_segment}
use remote_code.Process.Segment.Rebuilds.{rebuild_segment-append_records}
use remote_code.Process.Frames.{
  no_line, no_lines, Written, write_loop, set_line, recover_lines, frames_code,
}
use remote_code.Process.Frames.Cuts.{payloads, IsCut, write_loop-IsCut}
use remote_code.Process.Frames.Restarts.{rebuild_segment-write_loop}

sum : Bytes → ℕ
sum [] = 0
sum (b ∷ bytes) = b + sum bytes

abbrev line_record : LogRecord
line_record = record {
  offset = 7;
  line_offset = 7;
  timestamp = 5;
  stream = stdout;
  flags = 3;
  payload = b'h' ∷ b'i' ∷ b'\n' ∷ [];
}

abbrev open_record : LogRecord
open_record = record {
  offset = 8;
  line_offset = 8;
  timestamp = 5;
  stream = stdout;
  flags = 1;
  payload = b'y' ∷ b'o' ∷ [];
}

line_record-IsStorable : IsStorable line_record
line_record-IsStorable = record {
  offset_fits = omega arith;
  line_fits = omega arith;
  time_fits = omega arith;
  one_frame = omega arith;
}

open_record-IsStorable : IsStorable open_record
open_record-IsStorable = record {
  offset_fits = omega arith;
  line_fits = omega arith;
  time_fits = omega arith;
  one_frame = omega arith;
}

read_record-encode_record_example :
    read_record sum (encode_record sum line_record ++ 1 ∷ 2 ∷ []) ≡ accept (line_record, 1 ∷ 2 ∷ [])
read_record-encode_record_example =
    read_record-encode_record sum line_record line_record-IsStorable (1 ∷ 2 ∷ [])

read_record_torn_example :
    read_record sum (take 46 (encode_record sum line_record)) ≡ reject end_of_file
read_record_torn_example = read_record_torn sum line_record line_record-IsStorable 46 (omega arith)

rebuild_segment-append_records_example :
    rebuild_segment sum 7 (
      (append_records sum (line_record ∷ []) (create_segment 7 1)).log_file
      ++ take 20 (encode_record sum open_record))
    ≡ accept (record {
      segment = append_records sum (line_record ∷ []) (create_segment 7 1);
      records = line_record ∷ [];
      truncated = true;
    })
rebuild_segment-append_records_example =
    rebuild_segment-append_records sum 7 1 (line_record ∷ []) open_record 20 (omega arith)
      (refl, line_record-IsStorable, tt) open_record-IsStorable (omega arith)

abbrev output : Bytes
output = b'h' ∷ b'i' ∷ b'\n' ∷ b'y' ∷ b'o' ∷ []

abbrev good : ℕ → Bool
good offset = true

abbrev written_output : Written
written_output = record {
  appended = line_record ∷ open_record ∷ [];
  line = record { is_open = true; line_first = 8; line_last = 8; line_time = 5 };
  next_offset = 9;
  written = 5;
  failed = false;
}

write_output : write_loop stdout 5 5 good no_line 7 output 0 ≡ some written_output
unfolding frames_code
write_output = refl

abbrev CutOfOutput : Type 0
CutOfOutput =
    (w : Written) × (write_loop stdout 5 5 good no_line 7 output 0 ≡ some w)
    × IsCut stdout no_line 7 output 0 w

write_loop-IsCut_example : CutOfOutput
write_loop-IsCut_example =
    write_loop-IsCut stdout 5 (omega arith) 5 good no_line 7 output 0 (omega arith) (omega arith)
      (omega arith)

rebuild_segment-write_loop_example :
    (rebuild_segment sum 7 (
        (append_records sum written_output.appended (create_segment 7 1)).log_file
        ++ take 3 (encode_record sum open_record))
      ≡ accept (record {
        segment = append_records sum written_output.appended (create_segment 7 1);
        records = written_output.appended;
        truncated = true;
      }))
    × (payloads written_output.appended ≡ output)
    × (recover_lines no_lines written_output.appended
        ≡ set_line stdout written_output.line no_lines)
rebuild_segment-write_loop_example =
    rebuild_segment-write_loop sum stdout 5 7 1 good output written_output open_record 3
      (omega arith) (omega arith) write_output refl open_record-IsStorable (omega arith)
