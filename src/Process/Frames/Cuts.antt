-- ===== src/Process/Frames/Cuts.antt =====
-- internal/process/log_v2.go: the records into which `write` cuts what a process wrote.
use mathlib.Core.List.{append_assoc}
use mathlib.Core.Bool.{true≢false}
use remote_code.Prelude.{
  ℕ, zero, suc, ◌+◌, ◌^◌, ◌≤◌, ◌<◌, ◌≡◌, refl, sym, ap, subst, ◌∙◌, Bool, true, false, some, List,
  [], ◌∷◌, ◌++◌, length, length-append, take, drop, arith, Bool-cases, inl, inr,
}
use remote_code.Process.Bytes.{Bytes}
use remote_code.Process.Record.{
  LogStream, stdout, stderr, LogRecord, max_log_frame_bytes, offset_after, line_end,
}
use remote_code.Process.Segment.Scans.{Follows}
use remote_code.Process.Frames.{
  LineState, next_frame, open_line, starts_line, Written, frame_record, line_after, with_record,
  write_loop, recover_line, OpenLines, line_on, set_line, recover_lines,
}
use remote_code.Process.Frames.Lines.{
  IsLine, IsFrame, take-drop, next_frame-IsFrame, open_line-first, line_after-first, recover_frame,
  flags_of-ends,
}

pub payloads : List LogRecord → Bytes
payloads [] = []
payloads (r ∷ rs) = r.payload ++ payloads rs

abbrev pub AllLines : List LogRecord → Type 0
AllLines [] = Unit
AllLines (r ∷ rs) = IsLine (line_end r) r.payload × AllLines rs

-- The records of a write, from the first free offset on.
pub record IsCut (stream : LogStream) (line : LineState) (next : ℕ) (payload : Bytes) (count : ℕ)
    (w : Written) : Type 0 where
  pub follows : Follows next w.appended
  pub lines : AllLines w.appended
  pub rest : Bytes
  pub joined : payload ≡ payloads w.appended ++ rest
  pub counted : w.written ≡ count + length (payloads w.appended)
  pub all_written : w.failed ≡ false → rest ≡ []
  pub numbered : w.next_offset ≡ next + length w.appended
  pub recovered :
      (lines : OpenLines)
      → w.failed ≡ false
      → recover_lines (set_line stream line lines) w.appended ≡ set_line stream w.line lines

line_on-set_line :
    (stream : LogStream) (line : LineState) (lines : OpenLines)
    → line_on stream (set_line stream line lines) ≡ line
unfolding line_on set_line
line_on-set_line stdout line lines = refl
line_on-set_line stderr line lines = refl

set_line-set_line :
    (stream : LogStream) (line line' : LineState) (lines : OpenLines)
    → set_line stream line' (set_line stream line lines) ≡ set_line stream line' lines
unfolding set_line
set_line-set_line stdout line line' lines = refl
set_line-set_line stderr line line' lines = refl

abbrev stopped : LineState → ℕ → ℕ → Written
stopped line next count = record {
  appended = [];
  line = open_line line next;
  next_offset = next;
  written = count;
  failed = true;
}

module _ (stream : LogStream) (time : ℕ) (time_fits : time < 2 ^ 64) where
  -- One record before those of the rest.
  IsCut-first :
      (line : LineState) (next : ℕ) (payload : Bytes) (count : ℕ) (frame : ℕ × Bool) (w : Written)
      → line.line_first ≤ next
      → next + length payload < 2 ^ 64
      → IsFrame max_log_frame_bytes payload frame
      → IsCut stream
          (line_after stream time (open_line line next) next frame.1)
          (suc next)
          (drop frame.0 payload)
          (count + frame.0)
          w
      → IsCut stream line next payload count (record w {
        appended =
            frame_record stream time (open_line line next) next frame.1 (take frame.0 payload)
            ∷ w.appended;
      })
  unfolding payloads recover_lines frame_record
  IsCut-first line next payload count frame w f fits cut later_ones =
      let bytes = take frame.0 payload in
      let opened = open_line line next in
      record {
        follows = (
          refl,
          record {
            offset_fits = omega (arith, fits);
            line_fits = omega (arith, fits, open_line-first line next f);
            time_fits = time_fits;
            one_frame = omega (arith, cut.whole, cut.in_frame);
          },
          later_ones.follows,
        );
        lines = (
          subst (λ e. IsLine e bytes) (sym (flags_of-ends (starts_line opened next) frame.1))
              cut.shaped,
          later_ones.lines,
        );
        rest = later_ones.rest;
        joined =
            sym (take-drop frame.0 payload)
            ∙ ap (λ l. bytes ++ l) later_ones.joined
            ∙ sym (append_assoc bytes (payloads w.appended) later_ones.rest);
        counted =
            omega (arith, length-append bytes (payloads w.appended), cut.whole, later_ones.counted);
        all_written = later_ones.all_written;
        numbered = omega (arith, later_ones.numbered);
        recovered = λ lines e.
            ap (λ x. recover_lines x w.appended)
              (ap
                  (λ x.
                    set_line stream
                      (recover_line x (frame_record stream time opened next frame.1 bytes))
                      (set_line stream line lines))
                  (line_on-set_line stream line lines)
                ∙ set_line-set_line stream line _ lines
                ∙ ap (λ x. set_line stream x lines)
                    (recover_frame stream time next line frame.1 bytes))
            ∙ later_ones.recovered lines e;
      }

  write_loop-appends :
      (fuel : ℕ) (disk : ℕ → Bool) (line : LineState) (next b : ℕ) (payload : Bytes) (count : ℕ)
      (w : Written)
      → disk next ≡ true
      → write_loop stream time fuel disk
          (line_after stream time (open_line line next) next (next_frame (b ∷ payload)).1)
          (offset_after next)
          (drop (next_frame (b ∷ payload)).0 (b ∷ payload))
          (count + (next_frame (b ∷ payload)).0)
        ≡ some w
      → write_loop stream time (suc fuel) disk line next (b ∷ payload) count
        ≡ some (record w {
          appended =
              frame_record stream time
                (open_line line next)
                next
                (next_frame (b ∷ payload)).1
                (take (next_frame (b ∷ payload)).0 (b ∷ payload))
              ∷ w.appended;
        })
  unfolding write_loop with_record
  write_loop-appends fuel disk line next b payload count w good e =
      rw (good, write_loop)
        (ap
          (with_record stream time (
            frame_record stream time (open_line line next) next (next_frame (b ∷ payload)).1
              (take (next_frame (b ∷ payload)).0 (b ∷ payload))))
          e)

  loop_at :
      (fuel : ℕ) (disk : ℕ → Bool) (line : LineState) (m n : ℕ) (payload : Bytes) (count : ℕ)
      → n ≡ m
      → write_loop stream time fuel disk line n payload count
        ≡ write_loop stream time fuel disk line m payload count
  loop_at fuel disk line m n payload count e =
      ap (λ k. write_loop stream time fuel disk line k payload count) e

  -- The loop ends, and the records that it has appended have the next offsets, fit into 64 bits and one
  -- frame, hold one line or a part of one each, and joined are what it counts as written, which is all
  -- unless the log failed; then a restart finds the open line of the stream as the loop left it, and
  -- that of the other stream as it was.
  pub write_loop-IsCut :
      (fuel : ℕ) (disk : ℕ → Bool) (line : LineState) (next : ℕ) (payload : Bytes) (count : ℕ)
      → length payload ≤ fuel
      → line.line_first ≤ next
      → next + length payload < 2 ^ 64
      → (w : Written) × (write_loop stream time fuel disk line next payload count ≡ some w)
        × IsCut stream line next payload count w
  unfolding write_loop with_record recover_lines payloads
  write_loop-IsCut fuel disk line next [] count l f fits = (
    _,
    refl,
    record {
      follows = tt;
      lines = tt;
      rest = [];
      joined = refl;
      counted = omega arith;
      all_written = λ e. refl;
      numbered = omega arith;
      recovered = λ lines e. refl;
    },
  )
  write_loop-IsCut zero disk line next (b ∷ payload) count l f fits = absurd (omega (arith, l))
  write_loop-IsCut (suc fuel) disk line next (b ∷ payload) count l f fits =
      elim (Bool-cases (disk next)) [
        | inl good ↦
            let frame = next_frame (b ∷ payload) in
            let cut = next_frame-IsFrame b payload in
            let more = drop frame.0 (b ∷ payload) in
            let size : frame.0 + length more ≡ length (b ∷ payload) = omega (
              arith,
              cut.whole,
              length-append (take frame.0 (b ∷ payload)) more,
              ap (λ (bytes : Bytes). length bytes) (take-drop frame.0 (b ∷ payload)),
            ) in
            let ih =
              write_loop-IsCut fuel disk (line_after stream time (open_line line next) next frame.1)
                (suc next) more (count + frame.0) (omega (arith, l, size, cut.some_bytes))
                (line_after-first stream time next (open_line line next) frame.1
                  (open_line-first line next f))
                (omega (arith, fits, size, cut.some_bytes)) in
            let next_fits : offset_after next ≡ suc next = omega (arith, fits) in
            (
              _,
              write_loop-appends fuel disk line next b payload count ih.0 good (
                  loop_at fuel disk (line_after stream time (open_line line next) next frame.1)
                    (suc next) (offset_after next) more (count + frame.0) next_fits
                  ∙ ih.1),
              IsCut-first line next (b ∷ payload) count frame ih.0 f fits cut ih.2,
            )
        | inr bad ↦ (
          stopped line next count,
          rw (bad, write_loop) refl,
          record {
            follows = tt;
            lines = tt;
            rest = b ∷ payload;
            joined = refl;
            counted = omega arith;
            all_written = λ e. absurd (true≢false e);
            numbered = omega arith;
            recovered = λ lines e. absurd (true≢false e);
          },
        )
      ]
