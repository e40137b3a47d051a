-- ===== src/Process/Segment/Scans.antt =====
-- internal/process/log_v2.go: the scan of the records of a segment finds them and their indexes.
use mathlib.Core.List.{append_assoc, append-nil}
use remote_code.Prelude.{
  ℕ, zero, suc, ◌+◌, ◌%◌, ◌^◌, ◌≤◌, ◌<◌, ◌≡◌, refl, sym, ap, subst, ◌∙◌, ◌==◌, ltb, List, [], ◌∷◌,
  ◌++◌, length, length-append, take, Checked, accept, reject, accept-injective, if◌then◌else◌,
  arith, Bool-cases, inl, inr, passes, equal_passes,
}
use remote_code.Process.Bytes.{Bytes, put_uint}
use remote_code.Process.Record.{
  ReadError, LogStream, stdout, stderr, LogRecord, end_of_file, line_end, record_size,
  encode_record, offset_after, read_record,
}
use remote_code.Process.Record.RoundTrip.{IsStorable, read_record-encode_record, encoded-length}
use remote_code.Process.Segment.{
  Segment, LineEntry, when_read, index_stride, index_offset, index_line, add_line, append_record,
  append_records, Rebuilt, scan, read_failed,
}

-- Storable records with the offsets from `next` on.
abbrev pub Follows : ℕ → List LogRecord → Type 0
Follows next [] = Unit
Follows next (r ∷ rs) = (r.offset ≡ next) × IsStorable r × Follows (suc next) rs

-- Storable records do not come to the point where the offsets start again.
Follows-wraps : (next : ℕ) (rs : List LogRecord) → Follows next rs → Follows (next % 2 ^ 64) rs
Follows-wraps next [] f = tt
Follows-wraps next (r ∷ rs) f =
    let same : next ≡ next % 2 ^ 64 = omega (arith, f.0, f.1.offset_fits) in
    subst (λ n. Follows n (r ∷ rs)) same f

index_offset-file :
    (r : LogRecord) (position : ℕ) (s : Segment) (file : Bytes)
    → ◌≡◌ {A = Segment}
        (index_offset r position (record s { log_file = file }))
        (record (index_offset r position s) { log_file = file })
unfolding index_offset if◌then◌else◌
index_offset-file r position s file = elim (Bool-cases (r.offset % index_stride == 0)) [
  | inl e ↦ rw e refl
  | inr e ↦ rw e refl
]

add_line-file :
    (stream : LogStream) (entry : LineEntry) (s : Segment) (file : Bytes)
    → ◌≡◌ {A = Segment}
        (add_line stream entry (record s { log_file = file }))
        (record (add_line stream entry s) { log_file = file })
unfolding add_line
add_line-file stdout entry s file = refl
add_line-file stderr entry s file = refl

index_line-file :
    (r : LogRecord) (s : Segment) (file : Bytes)
    → ◌≡◌ {A = Segment}
        (index_line r (record s { log_file = file }))
        (record (index_line r s) { log_file = file })
unfolding index_line if◌then◌else◌
index_line-file r s file = elim (Bool-cases (line_end r)) [
  | inl e ↦ rw e (add_line-file r.stream _ s file)
  | inr e ↦ rw e refl
]

when_read-accept :
    {A B : Type 0} (x : Checked ReadError A) (failed : ReadError → B) (read : A → B) (a : A)
    → x ≡ accept a
    → when_read x failed read ≡ read a
unfolding when_read
when_read-accept (accept b) failed read a e = ap read (accept-injective b a e)
when_read-accept (reject b) failed read a e = cc

when_read-reject :
    {A B : Type 0} (x : Checked ReadError A) (failed : ReadError → B) (read : A → B) (d : ReadError)
    → x ≡ reject d
    → when_read x failed read ≡ failed d
unfolding when_read
when_read-reject (accept b) failed read d e = cc
when_read-reject (reject b) failed read d e = ap failed (cc)

abbrev renumbered : Segment → Bytes → ℕ → Segment
renumbered s file n = record s { log_file = file; next = offset_after n }

-- What the loop gives at the end of what was written.
unfoldable pub read_back : Bytes → Segment → List LogRecord → Rebuilt
read_back file s records = record {
  segment = record s { log_file = take (length s.log_file) file };
  records = records;
  truncated = ltb (length s.log_file) (length file);
}

module _ (checksum : Bytes → ℕ) where
  pub encoded : List LogRecord → Bytes
  encoded [] = []
  encoded (r ∷ rs) = encode_record checksum r ++ encoded rs

  -- The files of a segment are indexed alike when it is written and when it is read back.
  indexed_alike :
      (r : LogRecord) (s : Segment) (file : Bytes)
      → r.offset ≡ s.next
      → ◌≡◌ {A = Segment}
          (record (index_line r
            (index_offset r (length s.log_file) (record s { log_file = file }))) {
              next = offset_after s.next;
            })
          (record (append_record checksum r s) { log_file = file })
  unfolding append_record
  indexed_alike r s file e =
      let p = length s.log_file in
      let step : Segment → Segment = λ x. record x { next = offset_after s.next } in
      ap step (
        ap (index_line r) (index_offset-file r p s file)
        ∙ index_line-file r (index_offset r p s) file)
      ∙ ap (λ n. renumbered (index_line r (index_offset r p s)) file n) (sym e)

  append_record-file :
      (r : LogRecord) (s : Segment)
      → (append_record checksum r s).log_file ≡ s.log_file ++ encode_record checksum r
  unfolding append_record
  append_record-file r s = refl

  append_record-next :
      (r : LogRecord) (s : Segment) → (append_record checksum r s).next ≡ offset_after r.offset
  unfolding append_record
  append_record-next r s = refl

  pub append_records-file :
      (rs : List LogRecord) (s : Segment)
      → (append_records checksum rs s).log_file ≡ s.log_file ++ encoded rs
  unfolding append_records encoded
  append_records-file [] s = sym (append-nil s.log_file)
  append_records-file (r ∷ rs) s =
      append_records-file rs (append_record checksum r s)
      ∙ ap (λ l. l ++ encoded rs) (append_record-file r s)
      ∙ append_assoc s.log_file (encode_record checksum r) (encoded rs)

  scan_next :
      (fuel position : ℕ) (file more : Bytes) (r : LogRecord) (s : Segment)
      (records : List LogRecord)
      → IsStorable r
      → r.offset ≡ s.next
      → scan checksum (suc fuel) file (encode_record checksum r ++ more) position s records
        ≡ scan checksum fuel file more
            (position + record_size r)
            (record (index_line r (index_offset r position s)) { next = offset_after s.next })
            (records ++ r ∷ [])
  unfolding scan
  scan_next fuel position file more r s records h e =
      when_read-accept _ _ _ _ (read_record-encode_record checksum r h more)
      ∙ passes _ _ _ _ (equal_passes r.offset s.next e) refl

  pub scan-append_records :
      (rs : List LogRecord) (fuel : ℕ) (s : Segment) (file torn : Bytes) (records : List LogRecord)
      → Follows s.next rs
      → length rs < fuel
      → read_record checksum torn ≡ reject end_of_file
      → scan checksum fuel file
          (encoded rs ++ torn)
          (length s.log_file)
          (record s { log_file = file })
          records
        ≡ accept (read_back file (append_records checksum rs s) (records ++ rs))
  unfolding append_records encoded read_back scan read_failed
  scan-append_records rs zero s file torn records f l t = absurd (omega (arith, l))
  scan-append_records [] (suc fuel) s file torn records f l t =
      when_read-reject _ _ _ _ t ∙ ap (λ l. accept (read_back file s l)) (sym (append-nil records))
  scan-append_records (r ∷ rs) (suc fuel) s file torn records f l t =
      let s' = append_record checksum r s in
      let grown : length s.log_file + record_size r ≡ length s'.log_file = omega (
        arith,
        ap (λ (b : Bytes). length b) (append_record-file r s),
        length-append s.log_file (encode_record checksum r),
        encoded-length checksum r f.1,
      ) in
      let σ : Segment =
        record (index_line r (index_offset r (length s.log_file) (record s { log_file = file }))) {
          next = offset_after s.next;
        } in
      ap
        (λ bytes.
          scan checksum (suc fuel) file bytes (length s.log_file) (record s { log_file = file })
            records)
        (append_assoc (encode_record checksum r) (encoded rs) torn)
      ∙ scan_next fuel (length s.log_file) file (encoded rs ++ torn) r
          (record s { log_file = file }) records f.1 f.0
      ∙ ap (λ p. scan checksum fuel file (encoded rs ++ torn) p σ (records ++ r ∷ [])) grown
      ∙ ap
          (λ σ.
            scan checksum fuel file (encoded rs ++ torn) (length s'.log_file) σ (records ++ r ∷ []))
          (indexed_alike r s file f.0)
      ∙ scan-append_records rs fuel s' file torn (records ++ r ∷ [])
          (subst (λ n. Follows n rs) (sym (append_record-next r s ∙ ap offset_after f.0))
            (Follows-wraps (suc s.next) rs f.2))
          (omega (arith, l)) t
      ∙ ap (λ l. accept (read_back file (append_records checksum rs s') l))
          (append_assoc records (r ∷ []) rs)

  pub length-encoded : (rs : List LogRecord) → length rs ≤ length (encoded rs)
  unfolding encoded encode_record put_uint
  length-encoded [] = omega arith
  length-encoded (r ∷ rs) = omega (
    arith,
    length-append (encode_record checksum r) (encoded rs),
    length-encoded rs,
    encoded-length checksum r,
  )
