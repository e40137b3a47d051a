-- ===== src/Files/Parse/Tallies.antt =====
-- internal/files/patch.go: what each step of `parseUnifiedPatch` keeps of the hunks.
use remote_code.Prelude.{
  ◌≡◌, subst, Bool, true, false, some, List, [], ◌∷◌, ◌++◌, ◌⊎◌, inl, inr, if◌then◌else◌, length,
}
use remote_code.Files.Patch.{PatchHunk}
use remote_code.Files.Patch.Script.{old_side, new_side}
use remote_code.Files.Parse.Sides.{Edits}
use remote_code.Files.Parse.{Parsed, parsed, refused, and_parse, Parsing, with_last, hunks}

-- The counts and the starts that the header of a hunk gives fit its operations.
pub record IsCounted (h : PatchHunk) : Type 0 where
  pub old_counted : h.old_count ≡ length (old_side h.operations)
  pub new_counted : h.new_count ≡ length (new_side h.operations)
  pub old_done : h.old_used ≡ h.old_count
  pub new_done : h.new_used ≡ h.new_count
  pub old_started : h.old_start ≡ 0 → h.old_count ≡ 0
  pub new_started : h.new_start ≡ 0 → h.new_count ≡ 0

abbrev pub AllCounted : List PatchHunk → Type 0
AllCounted [] = Unit
AllCounted (h ∷ hs) = IsCounted h × AllCounted hs

abbrev pub Changes : List PatchHunk → Type 0
Changes [] = ⊥
Changes (h ∷ hs) = Edits h.operations ⊎ Changes hs

-- The lines used so far are those of the operations read so far.
pub record IsTallied (h : PatchHunk) : Type 0 where
  pub old_tallied : h.old_used ≡ length (old_side h.operations)
  pub new_tallied : h.new_used ≡ length (new_side h.operations)
  pub old_from : h.old_start ≡ 0 → h.old_count ≡ 0
  pub new_from : h.new_start ≡ 0 → h.new_count ≡ 0

abbrev pub AllTallied : List PatchHunk → Type 0
AllTallied [] = Unit
AllTallied (h ∷ hs) = IsTallied h × AllTallied hs

pub record IsSound (st : Parsing) : Type 0 where
  pub tallied : AllTallied (hunks st)
  pub edited : st.changed ≡ true → Changes (hunks st)

pub AllTallied-append :
    (hs : List PatchHunk) (h : PatchHunk) → AllTallied hs → IsTallied h → AllTallied (hs ++ h ∷ [])
AllTallied-append [] h all t = (t, tt)
AllTallied-append (g ∷ hs) h all t = (all.0, AllTallied-append hs h all.1 t)

pub AllTallied-split :
    (hs : List PatchHunk) (h : PatchHunk) → AllTallied (hs ++ h ∷ []) → AllTallied hs × IsTallied h
AllTallied-split [] h all = (tt, all.0)
AllTallied-split (g ∷ hs) h all = let r = AllTallied-split hs h all.1 in ((all.0, r.0), r.1)

pub Changes-append : (hs : List PatchHunk) (h : PatchHunk) → Changes hs → Changes (hs ++ h ∷ [])
Changes-append [] h e = elim e [ ]
Changes-append (g ∷ hs) h (inl e) = inl e
Changes-append (g ∷ hs) h (inr c) = inr (Changes-append hs h c)

pub Changes-last :
    (hs : List PatchHunk) (h : PatchHunk) → Edits h.operations → Changes (hs ++ h ∷ [])
Changes-last [] h e = inl e
Changes-last (g ∷ hs) h e = inr (Changes-last hs h e)

pub Changes-replace :
    (hs : List PatchHunk) (h h' : PatchHunk)
    → (Edits h.operations → Edits h'.operations)
    → Changes (hs ++ h ∷ [])
    → Changes (hs ++ h' ∷ [])
Changes-replace [] h h' k (inl e) = inl (k e)
Changes-replace [] h h' k (inr e) = elim e [ ]
Changes-replace (g ∷ hs) h h' k (inl e) = inl e
Changes-replace (g ∷ hs) h h' k (inr c) = inr (Changes-replace hs h h' k c)

-- A result that holds its predicate where there is one.
abbrev pub Holds : {A : Type 0} → (A → Type 0) → Parsed A → Type 0
Holds P (parsed a) = P a
Holds P (refused e) = Unit

pub Holds-if :
    {A : Type 0} (P : A → Type 0) (b : Bool) (r r' : Parsed A)
    → Holds P r
    → Holds P r'
    → Holds P (if b then r else r')
unfolding if◌then◌else◌
Holds-if P true r r' h h' = h
Holds-if P false r r' h h' = h'

-- The current hunk after a step in it.
pub IsSound-replace :
    (st : Parsing) (h h' : PatchHunk) (b : Bool)
    → st.current ≡ some h
    → IsSound st
    → (IsTallied h → IsTallied h')
    → (Edits h.operations → Edits h'.operations)
    → (b ≡ true → (st.changed ≡ true) ⊎ Edits h'.operations)
    → IsSound (record st { current = some h'; changed = b })
unfolding hunks
IsSound-replace st h h' b now sound counts edits why =
    let before =
      AllTallied-split st.earlier h
        (subst (λ c. AllTallied (with_last st.earlier c)) now sound.tallied) in
    record {
      tallied = AllTallied-append st.earlier h' before.0 (counts before.1);
      edited = λ e. elim (why e) [
        | inl c ↦
            Changes-replace st.earlier h h' edits
              (subst (λ o. Changes (with_last st.earlier o)) now (sound.edited c))
        | inr c ↦ Changes-last st.earlier h' c
      ];
    }

pub Holds-at : {A : Type 0} (P : A → Type 0) (r : Parsed A) (a : A) → Holds P r → r ≡ parsed a → P a
Holds-at P (refused x) a h e = cc
Holds-at P (parsed b) a h e = subst P (parsed-injective b a e) h
  where
    parsed-injective : {B : Type 0} (x y : B) → parsed x ≡ parsed y → x ≡ y
    parsed-injective x y e = cc

pub Holds-and_parse :
    {A B : Type 0} (P : A → Type 0) (Q : B → Type 0) (r : Parsed A) (f : A → Parsed B)
    → Holds P r
    → ((a : A) → P a → Holds Q (f a))
    → Holds Q (and_parse r f)
Holds-and_parse P Q (parsed a) f h k = k a h
Holds-and_parse P Q (refused x) f h k = tt
