-- ===== src/Files/Parse/Header.antt =====
-- internal/files/patch.go: `unifiedHunkPattern` and `patchHunkFromHeader`.
use remote_code.Prelude.{
  ℕ, ◌≡◌, refl, subst, arith, ◌+◌, ◌-◌, ◌*◌, ◌^◌, Bool, true, false, not, Option, none, some, List,
  [], ◌∷◌, ◌&&◌, ltb, ◌==◌, if◌then◌else◌, codes, all_codes, is_digit, and_true,
}
use remote_code.Files.Patch.{PatchHunk}

infixl 5 ◌>>=◌
abbrev pub ◌>>=◌ : {A B : Type 0} → Option A → (A → Option B) → Option B
none >>= f = none
some a >>= f = f a

-- The rest of a text that starts with a prefix.
cut_prefix : List ℕ → List ℕ → Option (List ℕ)
cut_prefix [] s = some s
cut_prefix (p ∷ ps) [] = none
cut_prefix (p ∷ ps) (c ∷ s) = let rest = cut_prefix ps s in if p == c then rest else none

is_some : Option (List ℕ) → Bool
is_some none = false
is_some (some s) = true

-- `strings.HasPrefix(s, prefix)`
pub has_prefix : List ℕ → List ℕ → Bool
has_prefix prefix s = is_some (cut_prefix prefix s)

-- The digits at the start of a text, and the rest.
take_digits : List ℕ → List ℕ × List ℕ
take_digits [] = ([], [])
take_digits (c ∷ s) =
    let rest = take_digits s in if is_digit c then (c ∷ rest.0, rest.1) else ([], c ∷ s)

-- `0|[1-9][0-9]*`, of digits
is_canonical : List ℕ → Bool
is_canonical [] = false
is_canonical (c ∷ []) = true
is_canonical (c ∷ d ∷ ds) = not (c == b'0')

read_start : List ℕ → Option (List ℕ × List ℕ)
read_start s = let read = take_digits s in if is_canonical read.0 then some read else none

is_no_text : List ℕ → Bool
is_no_text [] = true
is_no_text (c ∷ s) = false

-- `(?:,([0-9]+))?`, where the group that is not taken captures no text
read_count : List ℕ → Option (List ℕ × List ℕ)
read_count [] = some ([], [])
read_count (c ∷ s) =
    let read = take_digits s in
    if c == b',' then if is_no_text read.0 then none else some read else some ([], c ∷ s)

-- `(?: .*)?$`
is_header_end : List ℕ → Bool
is_header_end [] = true
is_header_end (c ∷ s) = c == b' ' && all_codes (λ d. not (d == 10)) s

-- The submatches of `unifiedHunkPattern`.
record HeaderValues : Type 0 where
  old_start : List ℕ
  old_count : List ℕ
  new_start : List ℕ
  new_count : List ℕ

at_end : List ℕ → HeaderValues → Option HeaderValues
at_end rest values = if is_header_end rest then some values else none

-- `unifiedHunkPattern.FindStringSubmatch(header)`
find_submatch : List ℕ → Option HeaderValues
find_submatch header = do
  s ← cut_prefix (codes "@@ -") header
  old_start ← read_start s
  old_count ← read_count old_start.1
  t ← cut_prefix (codes " +") old_count.1
  new_start ← read_start t
  new_count ← read_count new_start.1
  rest ← cut_prefix (codes " @@") new_count.1
  at_end rest (record {
    old_start = old_start.0;
    old_count = old_count.0;
    new_start = new_start.0;
    new_count = new_count.0;
  })

decimal : ℕ → List ℕ → ℕ
decimal n [] = n
decimal n (c ∷ s) = decimal (n * 10 + (c - b'0')) s

-- `strconv.Atoi`, of digits: an int has 64 bits
atoi : List ℕ → Option ℕ
atoi s = let n = decimal 0 s in if ltb n (2 ^ 63) then some n else none

count_of : List ℕ → Option ℕ
count_of [] = some 1
count_of (c ∷ s) = atoi (c ∷ s)

-- A start of 0 needs a count of 0.
is_start : ℕ → ℕ → Bool
is_start start count = not (start == 0 && not (count == 0))

hunk_from_numbers : ℕ → ℕ → ℕ → ℕ → Option PatchHunk
hunk_from_numbers old_start old_count new_start new_count =
    if is_start old_start old_count && is_start new_start new_count
    then some (record {
      old_start = old_start;
      old_count = old_count;
      new_start = new_start;
      new_count = new_count;
      old_used = 0;
      new_used = 0;
      operations = [];
    })
    else none

patch_hunk_from_header : HeaderValues → Option PatchHunk
patch_hunk_from_header values = do
  old_start ← atoi values.old_start
  new_start ← atoi values.new_start
  old_count ← count_of values.old_count
  new_count ← count_of values.new_count
  hunk_from_numbers old_start old_count new_start new_count

-- Both failures have the same error.
pub read_hunk_header : List ℕ → Option PatchHunk
read_hunk_header header = find_submatch header >>= patch_hunk_from_header

unfoldable pub header_code : Unit {0}
unfolding if◌then◌else◌ cut_prefix is_some has_prefix take_digits is_canonical read_start is_no_text
    read_count is_header_end at_end find_submatch decimal atoi count_of is_start hunk_from_numbers
    patch_hunk_from_header read_hunk_header
header_code = tt

>>=_some :
    {A B : Type 0} (o : Option A) (f : A → Option B) (b : B)
    → (o >>= f) ≡ some b
    → (a : A) × (f a ≡ some b)
>>=_some none f b e = cc
>>=_some (some a) f b e = (a, e)

is_start-zero : (start count : ℕ) → is_start start count ≡ true → start ≡ 0 → count ≡ 0
unfolding is_start
is_start-zero start count e z = ground arith

-- A hunk of which no line is read.
pub record IsFresh (h : PatchHunk) : Type 0 where
  pub old_unused : h.old_used ≡ 0
  pub new_unused : h.new_used ≡ 0
  pub no_operation : h.operations ≡ []
  pub old_from : h.old_start ≡ 0 → h.old_count ≡ 0
  pub new_from : h.new_start ≡ 0 → h.new_count ≡ 0

if_some :
    {A : Type 0} (b : Bool) (x y : A) → (if b then some x else none) ≡ some y → (b ≡ true) × (x ≡ y)
unfolding if◌then◌else◌
if_some true x y e = (refl, some-injective x y e)
  where
    some-injective : {B : Type 0} (u v : B) → some u ≡ some v → u ≡ v
    some-injective u v e = cc
if_some false x y e = cc

hunk_from_numbers-IsFresh :
    (a b c d : ℕ) (h : PatchHunk) → hunk_from_numbers a b c d ≡ some h → IsFresh h
unfolding hunk_from_numbers
hunk_from_numbers-IsFresh a b c d h e =
    let made = if_some (is_start a b && is_start c d) _ h e in
    let starts = and_true (is_start a b) (is_start c d) made.0 in
    subst IsFresh made.1 (record {
      old_unused = refl;
      new_unused = refl;
      no_operation = refl;
      old_from = is_start-zero a b starts.0;
      new_from = is_start-zero c d starts.1;
    })

pub read_hunk_header-IsFresh :
    (header : List ℕ) (h : PatchHunk) → read_hunk_header header ≡ some h → IsFresh h
unfolding read_hunk_header patch_hunk_from_header
read_hunk_header-IsFresh header h e =
    let values = >>=_some (find_submatch header) _ h e in
    let a = >>=_some (atoi values.0.old_start) _ h values.1 in
    let c = >>=_some (atoi values.0.new_start) _ h a.1 in
    let b = >>=_some (count_of values.0.old_count) _ h c.1 in
    let d = >>=_some (count_of values.0.new_count) _ h b.1 in
    hunk_from_numbers-IsFresh a.0 b.0 c.0 d.0 h d.1
