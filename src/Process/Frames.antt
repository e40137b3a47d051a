-- ===== src/Process/Frames.antt =====
-- internal/process/log_v2.go: the loop of `write`, which cuts what a process wrote into records, one line
-- or a part of a line each, and the line that `rebuildLocked` finds open after a restart.
pub mod Lines
pub mod Cuts
pub mod Restarts
use remote_code.Prelude.{
  ℕ, zero, suc, ◌+◌, ◌==◌, ltb, min, Bool, true, false, ◌||◌, not, Option, none, some, List, [],
  ◌∷◌, length, take, drop, if◌then◌else◌,
}
use remote_code.Process.Bytes.{Bytes}
use remote_code.Process.Record.{
  LogStream, stdout, stderr, LogRecord, max_log_frame_bytes, offset_after, line_start, line_end,
}

-- The zero value is a line that is not open.
pub record LineState : Type 0 where
  pub is_open : Bool
  pub line_first : ℕ
  pub line_last : ℕ
  pub line_time : ℕ

abbrev pub no_line : LineState
no_line = record { is_open = false; line_first = 0; line_last = 0; line_time = 0 }

unfoldable pub later : Option ℕ → Option ℕ
later none = none
later (some i) = some (suc i)

-- bytes.IndexByte
unfoldable pub index_byte : Bytes → ℕ → Option ℕ
unfolding later
index_byte [] c = none
index_byte (b ∷ bytes) c = if b == c then some 0 else later (index_byte bytes c)

-- How many bytes the next record takes, and whether they end a line.
unfoldable pub frame_of : Option ℕ → ℕ → ℕ × Bool
frame_of none window = (window, false)
frame_of (some i) window = (suc i, true)

unfoldable pub frame_within : ℕ → Bytes → ℕ × Bool
unfolding frame_of index_byte
frame_within most payload =
    frame_of (index_byte (take most payload) b'\n') (min (length payload) most)

unfoldable pub next_frame : Bytes → ℕ × Bool
unfolding frame_within
next_frame payload = frame_within max_log_frame_bytes payload

unfoldable pub open_line : LineState → ℕ → LineState
open_line line next =
    if line.is_open then line else record line { is_open = true; line_first = next }

unfoldable pub flags_of : Bool → Bool → ℕ
flags_of starts ends = (if starts then 1 else 0) + (if ends then 2 else 0)

unfoldable pub starts_line : LineState → ℕ → Bool
starts_line line next = ltb line.line_last line.line_first || next == line.line_first

pub record Written : Type 0 where
  pub appended : List LogRecord
  pub line : LineState
  pub next_offset : ℕ
  pub written : ℕ
  pub failed : Bool

module _ (stream : LogStream) (time : ℕ) where
  unfoldable pub frame_record : LineState → ℕ → Bool → Bytes → LogRecord
  frame_record line next ends bytes = record {
    offset = next;
    line_offset = line.line_first;
    timestamp = time;
    stream = stream;
    flags = flags_of (starts_line line next) ends;
    payload = bytes;
  }

  unfoldable pub line_after : LineState → ℕ → Bool → LineState
  line_after line next ends =
      if ends then no_line else record line { line_last = next; line_time = time }

  unfoldable pub with_record : LogRecord → Option Written → Option Written
  with_record r none = none
  with_record r (some w) = some (record w { appended = r ∷ w.appended })

  -- `disk` tells whether the record with an offset can be appended; the first that cannot ends the loop.
  -- The fuel is the number of bytes, and there is no result where it runs out.
  unfoldable pub write_loop : ℕ → (ℕ → Bool) → LineState → ℕ → Bytes → ℕ → Option Written
  write_loop fuel disk line next [] written =
      some (record {
        appended = [];
        line = line;
        next_offset = next;
        written = written;
        failed = false;
      })
  write_loop zero disk line next (b ∷ payload) written = none
  write_loop (suc fuel) disk line next (b ∷ payload) written =
      let opened = open_line line next in
      let frame = next_frame (b ∷ payload) in
      elim (disk next) [
        | true ↦ with_record (frame_record opened next frame.1 (take frame.0 (b ∷ payload))) (
            write_loop fuel disk (line_after opened next frame.1) (offset_after next)
              (drop frame.0 (b ∷ payload)) (written + frame.0))
        | false ↦ some (record {
          appended = [];
          line = opened;
          next_offset = next;
          written = written;
          failed = true;
        })
      ]

unfoldable pub recover_line : LineState → LogRecord → LineState
recover_line line r =
    let found =
      if line_start r || not line.is_open
      then record no_line { is_open = true; line_first = r.line_offset }
      else line in
    if line_end r then no_line else record found { line_last = r.offset; line_time = r.timestamp }

-- The map `openLines` of `rebuildLocked`, where a stream that has no entry has the zero value.
pub record OpenLines : Type 0 where
  pub open_stdout : LineState
  pub open_stderr : LineState

abbrev pub no_lines : OpenLines
no_lines = record { open_stdout = no_line; open_stderr = no_line }

unfoldable pub line_on : LogStream → OpenLines → LineState
line_on stdout lines = lines.open_stdout
line_on stderr lines = lines.open_stderr

unfoldable pub set_line : LogStream → LineState → OpenLines → OpenLines
set_line stdout line lines = record lines { open_stdout = line }
set_line stderr line lines = record lines { open_stderr = line }

unfoldable pub recover_lines : OpenLines → List LogRecord → OpenLines
recover_lines lines [] = lines
recover_lines lines (r ∷ rs) =
    recover_lines (set_line r.stream (recover_line (line_on r.stream lines) r) lines) rs

-- Everything that a run of this part computes with.
unfoldable pub frames_code : Unit {0}
unfolding if◌then◌else◌ next_frame frame_within frame_of index_byte later open_line flags_of
    starts_line frame_record line_after with_record write_loop recover_line line_on set_line
    recover_lines
frames_code = tt
