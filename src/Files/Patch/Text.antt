-- ===== src/Files/Patch/Text.antt =====
-- internal/files/patch.go: where `splitLinesKeepEnd` splits a text.
use mathlib.Core.List.{append-nil, append_assoc}
use remote_code.Prelude.{
  ℕ, ◌≡◌, ◌≢◌, ◌⊎◌, ◌↔◌, refl, sym, ap, subst, ◌∙◌, List, [], ◌∷◌, ◌++◌, ◌==◌, false, if◌then◌else◌,
  arith, Bool-cases, inl, inr,
}
use remote_code.Files.Patch.{
  Line, line_feed, add_first, split_after, drop_last_empty, split_lines_keep_end, join_lines,
}

abbrev pub HasNoFeed : Line → Type 0
HasNoFeed [] = Unit
HasNoFeed (c ∷ l) = (c ≢ 10) × HasNoFeed l

-- A line that ends with its line feed, the only one in it.
abbrev pub IsWhole : Line → Type 0
IsWhole l = (body : Line) × HasNoFeed body × (l ≡ body ++ (10 ∷ []))

-- Every line is whole, but for the last, which may be some bytes without a line feed.
abbrev pub AreLines : List Line → Type 0
AreLines [] = Unit
AreLines (l ∷ []) = IsWhole l ⊎ ((l ≢ []) × HasNoFeed l)
AreLines (l ∷ m ∷ ls) = IsWhole l × AreLines (m ∷ ls)

pub record IsSplit (value : List ℕ) (lines : List Line) : Type 0 where
  pub joined : join_lines lines ≡ value
  pub shaped : AreLines lines

-- The pieces of `strings.SplitAfter`: the last one may be empty.
abbrev ArePieces : List Line → Type 0
ArePieces [] = ⊥
ArePieces (l ∷ []) = HasNoFeed l
ArePieces (l ∷ m ∷ ls) = IsWhole l × ArePieces (m ∷ ls)

join_lines-add_first : (c : ℕ) (ls : List Line) → join_lines (add_first c ls) ≡ c ∷ join_lines ls
unfolding join_lines add_first
join_lines-add_first c [] = refl
join_lines-add_first c (l ∷ ls) = refl

join_lines-split_after : (cs : List ℕ) → join_lines (split_after cs) ≡ cs
unfolding join_lines split_after if◌then◌else◌
join_lines-split_after [] = refl
join_lines-split_after (c ∷ cs) = elim (Bool-cases (c == line_feed)) [
  | inl h ↦ rw h (ap (λ xs. c ∷ xs) (join_lines-split_after cs))
  | inr h ↦
      rw h (join_lines-add_first c (split_after cs) ∙ ap (λ xs. c ∷ xs) (join_lines-split_after cs))
]

join_lines-drop_last_empty : (ls : List Line) → join_lines (drop_last_empty ls) ≡ join_lines ls
unfolding join_lines drop_last_empty
join_lines-drop_last_empty [] = refl
join_lines-drop_last_empty ([] ∷ []) = refl
join_lines-drop_last_empty ((c ∷ l) ∷ []) = refl
join_lines-drop_last_empty ([] ∷ m ∷ ls) = join_lines-drop_last_empty (m ∷ ls)
join_lines-drop_last_empty ((c ∷ l) ∷ m ∷ ls) =
    ap (λ xs. (c ∷ l) ++ xs) (join_lines-drop_last_empty (m ∷ ls))

join_lines-split_lines_keep_end : (value : List ℕ) → join_lines (split_lines_keep_end value) ≡ value
unfolding join_lines split_lines_keep_end
join_lines-split_lines_keep_end [] = refl
join_lines-split_lines_keep_end (c ∷ cs) =
    join_lines-drop_last_empty (split_after (c ∷ cs)) ∙ join_lines-split_after (c ∷ cs)

IsWhole-cons : (c : ℕ) (l : Line) → c ≢ 10 → IsWhole l → IsWhole (c ∷ l)
IsWhole-cons c l d w = (c ∷ w.0, (d, w.1), ap (λ xs. c ∷ xs) w.2)

add_first-ArePieces : (c : ℕ) (ls : List Line) → c ≢ 10 → ArePieces ls → ArePieces (add_first c ls)
unfolding add_first
add_first-ArePieces c [] d h = absurd h
add_first-ArePieces c (l ∷ []) d h = (d, h)
add_first-ArePieces c (l ∷ m ∷ ls) d h = (IsWhole-cons c l d h.0, h.1)

ArePieces-cons : (l : Line) (ls : List Line) → IsWhole l → ArePieces ls → ArePieces (l ∷ ls)
ArePieces-cons l [] w h = absurd h
ArePieces-cons l (m ∷ ls) w h = (w, h)

split_after-ArePieces : (cs : List ℕ) → ArePieces (split_after cs)
unfolding split_after if◌then◌else◌
split_after-ArePieces [] = tt
split_after-ArePieces (c ∷ cs) = elim (Bool-cases (c == line_feed)) [
  | inl h ↦
      let feed : c ≡ 10 = ground (arith, h) in
      rw h (
        ArePieces-cons (c ∷ []) (split_after cs) ([], tt, ap (λ x. x ∷ []) feed)
          (split_after-ArePieces cs))
  | inr h ↦
      let other : c ≢ 10 = ground (arith, h) in
      rw h (add_first-ArePieces c (split_after cs) other (split_after-ArePieces cs))
]

AreLines-cons : (l : Line) (ls : List Line) → IsWhole l → AreLines ls → AreLines (l ∷ ls)
AreLines-cons l [] w h = inl w
AreLines-cons l (m ∷ ls) w h = (w, h)

drop_last_empty-AreLines : (ls : List Line) → ArePieces ls → AreLines (drop_last_empty ls)
unfolding drop_last_empty
drop_last_empty-AreLines [] h = absurd h
drop_last_empty-AreLines ([] ∷ []) h = tt
drop_last_empty-AreLines ((c ∷ l) ∷ []) h = inr (cc, h)
drop_last_empty-AreLines ([] ∷ m ∷ ls) h =
    AreLines-cons [] _ h.0 (drop_last_empty-AreLines (m ∷ ls) h.1)
drop_last_empty-AreLines ((c ∷ l) ∷ m ∷ ls) h =
    AreLines-cons (c ∷ l) _ h.0 (drop_last_empty-AreLines (m ∷ ls) h.1)

split_as : (value : List ℕ) → split_lines_keep_end value ≡ drop_last_empty (split_after value)
unfolding split_lines_keep_end split_after drop_last_empty
split_as [] = refl
split_as (c ∷ cs) = refl

split_lines_keep_end-IsSplit : (value : List ℕ) → IsSplit value (split_lines_keep_end value)
split_lines_keep_end-IsSplit value = record {
  joined = join_lines-split_lines_keep_end value;
  shaped =
      rw (split_as value)
        (drop_last_empty-AreLines (split_after value) (split_after-ArePieces value));
}

-- The other way: pieces of this shape are found again.
not_feed : (c : ℕ) → c ≢ 10 → (c == line_feed) ≡ false
not_feed c d = ground (arith, d)

split_after-whole :
    (body cs : List ℕ)
    → HasNoFeed body
    → split_after (body ++ (10 ∷ cs)) ≡ (body ++ (10 ∷ [])) ∷ split_after cs
unfolding split_after add_first if◌then◌else◌
split_after-whole [] cs h = refl
split_after-whole (c ∷ body) cs h = rw (not_feed c h.0, split_after-whole body cs h.1) refl

split_after-rest : (l : Line) → HasNoFeed l → split_after l ≡ l ∷ []
unfolding split_after add_first if◌then◌else◌
split_after-rest [] h = refl
split_after-rest (c ∷ l) h = rw (not_feed c h.0, split_after-rest l h.1) refl

drop_last_empty-cons :
    (l : Line) (ls : List Line) → ArePieces ls → drop_last_empty (l ∷ ls) ≡ l ∷ drop_last_empty ls
unfolding drop_last_empty
drop_last_empty-cons l [] h = absurd h
drop_last_empty-cons [] (m ∷ ls) h = refl
drop_last_empty-cons (c ∷ l) (m ∷ ls) h = refl

-- A whole line in front of a text is its first line.
split_whole :
    (l : Line) (cs : List ℕ)
    → IsWhole l
    → drop_last_empty (split_after (l ++ cs)) ≡ l ∷ drop_last_empty (split_after cs)
split_whole l cs w =
    ap drop_last_empty (
      ap (λ x. split_after (x ++ cs)) w.2
      ∙ ap split_after (append_assoc w.0 (10 ∷ []) cs)
      ∙ split_after-whole w.0 cs w.1)
    ∙ drop_last_empty-cons (w.0 ++ (10 ∷ [])) (split_after cs) (split_after-ArePieces cs)
    ∙ ap (λ x. x ∷ drop_last_empty (split_after cs)) (sym w.2)

split_rest : (l : Line) → l ≢ [] → HasNoFeed l → drop_last_empty (split_after (l ++ [])) ≡ l ∷ []
unfolding drop_last_empty
split_rest [] d h = absurd (d refl)
split_rest (c ∷ l) d h =
    ap drop_last_empty (ap split_after (append-nil (c ∷ l)) ∙ split_after-rest (c ∷ l) h)

split_after-join_lines :
    (ls : List Line) → AreLines ls → drop_last_empty (split_after (join_lines ls)) ≡ ls
unfolding join_lines split_after drop_last_empty
split_after-join_lines [] h = refl
split_after-join_lines (l ∷ []) (inl w) = split_whole l [] w
split_after-join_lines (l ∷ []) (inr r) = split_rest l r.0 r.1
split_after-join_lines (l ∷ m ∷ ls) h =
    split_whole l (join_lines (m ∷ ls)) h.0
    ∙ ap (λ xs. l ∷ xs) (split_after-join_lines (m ∷ ls) h.1)

-- `splitLinesKeepEnd` gives lines exactly when they join to the text and each of them ends with its only
-- line feed, but for the last, which may be some bytes without one.
pub split_lines_keep_end_iff :
    (value : List ℕ) (lines : List Line)
    → (split_lines_keep_end value ≡ lines) ↔ IsSplit value lines
split_lines_keep_end_iff value lines = (
  λ e. subst (IsSplit value) e (split_lines_keep_end-IsSplit value),
  λ s.
      ap split_lines_keep_end (sym s.joined)
      ∙ split_as (join_lines lines)
      ∙ split_after-join_lines lines s.shaped,
)
