-- ===== src/Process/Frames/Lines.antt =====
-- internal/process/log_v2.go: what one round of the loop of `write` cuts off, and how its line is found
-- again.
use remote_code.Prelude.{
  ℕ, zero, suc, ◌%◌, ◌/◌, ◌≤◌, ◌<◌, ◌≡◌, refl, sym, ap, subst, ◌∙◌, ◌==◌, min, Bool, true, false,
  ◌||◌, not, Option, none, some, [], ◌∷◌, ◌++◌, length, length-take, take, drop, if◌then◌else◌,
  arith, Bool-cases, Option-cases, inl, inr,
}
use remote_code.Process.Bytes.{Bytes}
use remote_code.Process.Record.{LogStream, max_log_frame_bytes}
use remote_code.Process.Frames.{
  LineState, no_line, later, index_byte, frame_within, frame_of, next_frame, open_line, flags_of,
  starts_line, frame_record, line_after, recover_line,
}

pub take-drop : (n : ℕ) (bytes : Bytes) → take n bytes ++ drop n bytes ≡ bytes
take-drop zero bytes = refl
take-drop (suc n) [] = refl
take-drop (suc n) (b ∷ bytes) = ap (λ l. b ∷ l) (take-drop n bytes)

-- The first newline of a record is its last byte, where it ends a line; else it has none.
abbrev pub IsLine : Bool → Bytes → Type 0
IsLine true bytes = (i : ℕ) × (index_byte bytes b'\n' ≡ some i) × (length bytes ≡ suc i)
IsLine false bytes = index_byte bytes b'\n' ≡ none

later-some : (o : Option ℕ) (i : ℕ) → later o ≡ some i → (j : ℕ) × (o ≡ some j) × (suc j ≡ i)
unfolding later
later-some none i e = cc
later-some (some j) i e = (j, refl, cc)

-- A prefix that ends with the byte that is found.
abbrev EndsAt : Bytes → ℕ → ℕ → ℕ → Type 0
EndsAt bytes c n i =
    (index_byte (take (suc i) bytes) c ≡ some i)
    × (length (take (suc i) bytes) ≡ suc i)
    × (suc i ≤ n)
    × (suc i ≤ length bytes)

index_byte-take :
    (n i : ℕ) (bytes : Bytes) (c : ℕ) → index_byte (take n bytes) c ≡ some i → EndsAt bytes c n i
unfolding index_byte if◌then◌else◌ later
index_byte-take zero i bytes c e = cc
index_byte-take (suc n) i [] c e = cc
index_byte-take (suc n) i (b ∷ bytes) c e = elim (Bool-cases (b == c)) [
  | inl same ↦
      let zero_is : 0 ≡ i = cc (rw same at e) in
      subst (EndsAt (b ∷ bytes) c (suc n)) zero_is (rw same refl, refl, omega arith, omega arith)
  | inr other ↦
      let found = later-some (index_byte (take n bytes) c) i (rw other at e) in
      let h = index_byte-take n found.0 bytes c found.1 in
      subst (EndsAt (b ∷ bytes) c (suc n)) found.2
        (rw (other, h.0) refl, ap suc h.1, omega (arith, h.2), omega (arith, h.3))
]

take_nil : (n : ℕ) → take {A = ℕ} n [] ≡ []
take_nil zero = refl
take_nil (suc n) = refl

take-min : (n : ℕ) (bytes : Bytes) → take (min (length bytes) n) bytes ≡ take n bytes
take-min n [] = take_nil (min 0 n) ∙ sym (take_nil n)
take-min zero (b ∷ bytes) =
    let none_left : min (suc (length bytes)) 0 ≡ 0 = omega arith in
    ap (λ k. take k (b ∷ bytes)) none_left
take-min (suc n) (b ∷ bytes) =
    let step : min (suc (length bytes)) (suc n) ≡ suc (min (length bytes) n) = omega arith in
    ap (λ k. take k (b ∷ bytes)) step ∙ ap (λ l. b ∷ l) (take-min n bytes)

index_byte-none :
    (n : ℕ) (bytes : Bytes) (c : ℕ)
    → index_byte (take n bytes) c ≡ none
    → (index_byte (take (min (length bytes) n) bytes) c ≡ none)
      × (length (take (min (length bytes) n) bytes) ≡ min (length bytes) n)
index_byte-none n bytes c e = (
  ap (λ l. index_byte l c) (take-min n bytes) ∙ e,
  length-take (min (length bytes) n) bytes (omega arith),
)

-- What one round cuts off.
pub record IsFrame (most : ℕ) (payload : Bytes) (frame : ℕ × Bool) : Type 0 where
  pub some_bytes : 0 < frame.0
  pub in_payload : frame.0 ≤ length payload
  pub in_frame : frame.0 ≤ most
  pub shaped : IsLine frame.1 (take frame.0 payload)
  pub whole : length (take frame.0 payload) ≡ frame.0

frame_within-IsFrame :
    (most : ℕ) (payload : Bytes)
    → 0 < most
    → 0 < length payload
    → IsFrame most payload (frame_within most payload)
unfolding frame_within frame_of
frame_within-IsFrame most payload m l = elim (Option-cases (index_byte (take most payload) b'\n')) [
  | inl e ↦
      let h = index_byte-none most payload b'\n' e in
      rw e (record {
        some_bytes = omega (arith, m, l);
        in_payload = omega arith;
        in_frame = omega arith;
        shaped = h.0;
        whole = h.1;
      })
  | inr (i, e) ↦
      let h = index_byte-take most i payload b'\n' e in
      rw e (record {
        some_bytes = omega arith;
        in_payload = h.3;
        in_frame = h.2;
        shaped = (i, h.0, h.1);
        whole = h.1;
      })
]

flags_of-starts : (starts ends : Bool) → (flags_of starts ends % 2 == 1) ≡ starts
unfolding flags_of if◌then◌else◌
flags_of-starts true true = refl
flags_of-starts true false = refl
flags_of-starts false true = refl
flags_of-starts false false = refl

pub flags_of-ends : (starts ends : Bool) → (flags_of starts ends / 2 % 2 == 1) ≡ ends
unfolding flags_of if◌then◌else◌
flags_of-ends true true = refl
flags_of-ends true false = refl
flags_of-ends false true = refl
flags_of-ends false false = refl

-- A record of a line that is open already, or that it opens.
record_of_line :
    (line : LineState) (next time : ℕ) (starts : Bool)
    → ◌≡◌ {A = LineState}
        (record (if starts || not line.is_open
          then record no_line { is_open = true; line_first = (open_line line next).line_first }
          else line) { line_last = next; line_time = time })
        (record (open_line line next) { line_last = next; line_time = time })
unfolding open_line if◌then◌else◌
record_of_line line next time true = elim (Bool-cases line.is_open) [
  | inl o ↦ rw o refl
  | inr c ↦ rw c refl
]
record_of_line line next time false = elim (Bool-cases line.is_open) [
  | inl o ↦ rw o refl
  | inr c ↦ rw c refl
]

-- After a restart the line of a record is found as the loop left it.
pub recover_frame :
    (stream : LogStream) (time next : ℕ) (line : LineState) (ends : Bool) (bytes : Bytes)
    → recover_line line (frame_record stream time (open_line line next) next ends bytes)
      ≡ line_after stream time (open_line line next) next ends
unfolding recover_line frame_record line_after
recover_frame stream time next line ends bytes =
    let starts = starts_line (open_line line next) next in
    rw (flags_of-ends starts ends, flags_of-starts starts ends)
      (ap (λ (x : LineState). if ends then no_line else x) (record_of_line line next time starts))

pub next_frame-IsFrame :
    (b : ℕ) (payload : Bytes) → IsFrame max_log_frame_bytes (b ∷ payload) (next_frame (b ∷ payload))
unfolding next_frame
next_frame-IsFrame b payload =
    frame_within-IsFrame max_log_frame_bytes (b ∷ payload) (omega arith) (omega arith)

pub open_line-first :
    (line : LineState) (next : ℕ) → line.line_first ≤ next → (open_line line next).line_first ≤ next
unfolding open_line if◌then◌else◌
open_line-first line next f = elim (Bool-cases line.is_open) [
  | inl o ↦ rw o f
  | inr c ↦ rw c (omega arith)
]

pub line_after-first :
    (stream : LogStream) (time next : ℕ) (line : LineState) (ends : Bool)
    → line.line_first ≤ next
    → (line_after stream time line next ends).line_first ≤ suc next
unfolding line_after if◌then◌else◌
line_after-first stream time next line true f = omega arith
line_after-first stream time next line false f = omega (arith, f)
