-- ===== src/Process/Frames/Restarts.antt =====
-- internal/process/log_v2.go: what a process wrote survives a restart.
use mathlib.Core.List.{append-nil}
use remote_code.Prelude.{
  ℕ, ◌+◌, ◌^◌, ◌<◌, ◌≡◌, refl, sym, ap, subst, ◌∙◌, Bool, false, ltb, Option, some, ◌++◌, length,
  take, accept, arith,
}
use remote_code.Process.Bytes.{Bytes}
use remote_code.Process.Record.{LogStream, stdout, stderr, LogRecord, record_size, encode_record}
use remote_code.Process.Record.RoundTrip.{IsStorable}
use remote_code.Process.Segment.{create_segment, append_records, rebuild_segment}
use remote_code.Process.Segment.Rebuilds.{rebuild_segment-append_records}
use remote_code.Process.Frames.{no_line, no_lines, Written, write_loop, set_line, recover_lines}
use remote_code.Process.Frames.Cuts.{payloads, IsCut, write_loop-IsCut}

set_line-no_line : (stream : LogStream) → set_line stream no_line no_lines ≡ no_lines
unfolding set_line
set_line-no_line stdout = refl
set_line-no_line stderr = refl

written_is : (w v : Written) → ◌≡◌ {A = Option Written} (some w) (some v) → w ≡ v
written_is w v e = cc

IsCut-of :
    (stream : LogStream) (time first : ℕ) (disk : ℕ → Bool) (payload : Bytes) (w : Written)
    → time < 2 ^ 64
    → first + length payload < 2 ^ 64
    → write_loop stream time (length payload) disk no_line first payload 0 ≡ some w
    → IsCut stream no_line first payload 0 w
IsCut-of stream time first disk payload w t fits e =
    let r =
      write_loop-IsCut stream time t (length payload) disk no_line first payload 0 (omega arith)
        (omega arith) fits in
    subst (IsCut stream no_line first payload 0) (written_is r.0 w (sym r.1 ∙ e)) r.2

-- The records of a write to a new segment, with a part of a further record behind them, are read back
-- as they were written: joined they are the bytes of the write, and the line that is found open on its
-- stream is the one that the write left open, and none on the other.
pub rebuild_segment-write_loop :
    (checksum : Bytes → ℕ) (stream : LogStream) (time first created : ℕ) (disk : ℕ → Bool)
    (payload : Bytes) (w : Written) (last : LogRecord) (n : ℕ)
    → time < 2 ^ 64
    → first + length payload < 2 ^ 64
    → write_loop stream time (length payload) disk no_line first payload 0 ≡ some w
    → w.failed ≡ false
    → IsStorable last
    → n < record_size last
    → (rebuild_segment checksum first (
          (append_records checksum w.appended (create_segment first created)).log_file
          ++ take n (encode_record checksum last))
        ≡ accept (record {
          segment = append_records checksum w.appended (create_segment first created);
          records = w.appended;
          truncated = ltb 0 n;
        }))
      × (payloads w.appended ≡ payload)
      × (recover_lines no_lines w.appended ≡ set_line stream w.line no_lines)
rebuild_segment-write_loop checksum stream time first created disk payload w last n t fits e ok h
      l =
    let cut = IsCut-of stream time first disk payload w t fits e in
    (
      rebuild_segment-append_records checksum first created w.appended last n (omega (arith, fits))
          cut.follows h l,
      sym (
          cut.joined
          ∙ ap (λ r. payloads w.appended ++ r) (cut.all_written ok)
          ∙ append-nil (payloads w.appended)),
      ap (λ x. recover_lines x w.appended) (sym (set_line-no_line stream))
          ∙ cut.recovered no_lines ok,
    )
