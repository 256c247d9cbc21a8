-- ===== src/Worker/Guards/Denied.antt =====
-- What `matches_deny` of bf_worker/services/patch_guard.py lets pass.
use mathlib.Core.List.{append_assoc}
use dev_harness.Base.{
  ◌≡◌, refl, sym, ap, ◌∙◌, subst, ◌≢◌, inl, inr, Bool, false, none, some, List, [], ◌∷◌, ◌++◌, ◌==◌,
  Bool-cases, Option-cases, All, any, not, ◌&&◌,
}
use dev_harness.Base.Text.{Text}
use dev_harness.Base.Split.{split_on, join, split_on-cons}
use dev_harness.Worker.Guards.{
  slash, deny_globs, fits, first_glob, first_of, candidates, basename, base_fits, matches_deny,
  denied_by, denied,
}
use dev_harness.Worker.Guards.Globs.{Glob, pieces, matches, matches→Glob, Glob→matches}

-- No glob of the list stands for the text.
pub Apart : List Text → Text → Type 0
Apart globs s = All (λ glob. ¬ Glob (pieces glob) s) globs

-- No glob without a slash stands for the name.
pub ApartName : List Text → Text → Type 0
ApartName globs name =
    All (λ glob. any (λ c. c == slash) glob ≡ false → ¬ Glob (pieces glob) name) globs

-- Neither a path from the root down to a file or a directory above it, nor the name of the file, is one
-- that a glob stands for.
pub Harmless : Text → Type 0
Harmless rel_posix =
    ((before after : List Text)
      → split_on slash rel_posix ≡ before ++ after
      → before ≢ []
      → Apart deny_globs (join slash before))
    × ((before : List Text) (name : Text)
        → split_on slash rel_posix ≡ before ++ (name ∷ [])
        → ApartName deny_globs name)

unfit→Apart : (s glob : Text) → fits s glob ≡ false → ¬ Glob (pieces glob) s
unfolding fits
unfit→Apart s glob h held = let hit = Glob→matches (pieces glob) s held in cc

Apart→unfit : (s glob : Text) → (¬ Glob (pieces glob) s) → fits s glob ≡ false
unfolding fits
Apart→unfit s glob h = elim (Bool-cases (matches (pieces glob) s)) [
  | inl e ↦ absurd (h (matches→Glob (pieces glob) s e))
  | inr e ↦ e
]

none→All :
    (f : Text → Bool) (globs : List Text)
    → first_glob f globs ≡ none
    → All (λ glob. f glob ≡ false) globs
unfolding first_glob
none→All f [] h = tt
none→All f (glob ∷ globs) h = elim (Bool-cases (f glob)) [
  | inl e ↦ absurd (let bad : some glob ≡ none = rw e at h in cc)
  | inr e ↦ (e, none→All f globs (rw e at h))
]

All→none :
    (f : Text → Bool) (globs : List Text)
    → All (λ glob. f glob ≡ false) globs
    → first_glob f globs ≡ none
unfolding first_glob
All→none f [] h = refl
All→none f (glob ∷ globs) h = rw (h.0) (All→none f globs h.1)

map-All :
    (P Q : Text → Type 0) (globs : List Text)
    → ((glob : Text) → P glob → Q glob)
    → All P globs
    → All Q globs
map-All P Q [] f h = tt
map-All P Q (glob ∷ globs) f h = (f glob h.0, map-All P Q globs f h.1)

first_of→All : (globs found : List Text) → first_of globs found ≡ none → All (Apart globs) found
unfolding first_of Apart
first_of→All globs [] h = tt
first_of→All globs (s ∷ found) h = elim (Option-cases (first_glob (fits s) globs)) [
  | inl e ↦ (
    map-All (λ glob. fits s glob ≡ false) (λ glob. ¬ Glob (pieces glob) s) globs (unfit→Apart s)
        (none→All (fits s) globs e),
    first_of→All globs found (rw (e, first_of) at h),
  )
  | inr (glob, e) ↦ absurd (let bad : some glob ≡ none = rw (e, first_of) at h in cc)
]

All→first_of : (globs found : List Text) → All (Apart globs) found → first_of globs found ≡ none
unfolding first_of Apart
All→first_of globs [] h = refl
All→first_of globs (s ∷ found) h =
    let missed : first_glob (fits s) globs ≡ none = All→none (fits s) globs (
      map-All (λ glob. ¬ Glob (pieces glob) s) (λ glob. fits s glob ≡ false) globs (Apart→unfit s)
        h.0) in
    rw (missed, first_of) (All→first_of globs found h.1)

candidates→parents :
    (P : Text → Type 0) (above before after : List Text)
    → All P (candidates above (before ++ after))
    → before ≢ []
    → P (join slash (above ++ before))
unfolding candidates
candidates→parents P above [] after h ne = absurd (ne refl)
candidates→parents P above (part ∷ []) after h ne = h.0
candidates→parents P above (part ∷ next ∷ before) after h ne =
    subst (λ l. P (join slash l)) (append_assoc above (part ∷ []) (next ∷ before))
      (candidates→parents P (above ++ (part ∷ [])) (next ∷ before) after h.1 (λ e. cc))

parents→candidates :
    (P : Text → Type 0) (above parts : List Text)
    → ((before after : List Text)
        → parts ≡ before ++ after
        → before ≢ []
        → P (join slash (above ++ before)))
    → All P (candidates above parts)
unfolding candidates
parents→candidates P above [] h = tt
parents→candidates P above (part ∷ parts) h = (
  h (part ∷ []) parts refl (λ e. cc),
  parents→candidates P (above ++ (part ∷ [])) parts (λ before after e ne.
      subst (λ l. P (join slash l)) (sym (append_assoc above (part ∷ []) before))
        (h (part ∷ before) after (ap (λ l. part ∷ l) e) (λ e. cc))),
)

basename-append : (before : List Text) (name : Text) → basename (before ++ (name ∷ [])) ≡ name
unfolding basename
basename-append [] name = refl
basename-append (part ∷ []) name = refl
basename-append (part ∷ next ∷ before) name = basename-append (next ∷ before) name

append-basename :
    (part : Text) (parts : List Text)
    → (before : List Text) × (part ∷ parts ≡ before ++ (basename (part ∷ parts) ∷ []))
unfolding basename
append-basename part [] = ([], refl)
append-basename part (next ∷ parts) =
    let rest = append-basename next parts in (part ∷ rest.0, ap (λ l. part ∷ l) rest.1)

base_unfit→Apart :
    (name glob : Text)
    → base_fits name glob ≡ false
    → any (λ c. c == slash) glob ≡ false
    → ¬ Glob (pieces glob) name
unfolding base_fits
base_unfit→Apart name glob h plain =
    unfit→Apart name glob (let unfit : not false && fits name glob ≡ false = rw plain at h in unfit)

Apart→base_unfit :
    (name glob : Text)
    → (any (λ c. c == slash) glob ≡ false → ¬ Glob (pieces glob) name)
    → base_fits name glob ≡ false
unfolding base_fits
Apart→base_unfit name glob h = elim (Bool-cases (any (λ c. c == slash) glob)) [
  | inl e ↦ rw e refl
  | inr e ↦ rw e (Apart→unfit name glob (h e))
]

none→ApartName :
    (name : Text) (globs : List Text)
    → first_glob (base_fits name) globs ≡ none
    → ApartName globs name
unfolding ApartName
none→ApartName name globs h =
    map-All (λ glob. base_fits name glob ≡ false)
      (λ glob. any (λ c. c == slash) glob ≡ false → ¬ Glob (pieces glob) name) globs
      (base_unfit→Apart name) (none→All (base_fits name) globs h)

ApartName→none :
    (name : Text) (globs : List Text)
    → ApartName globs name
    → first_glob (base_fits name) globs ≡ none
unfolding ApartName
ApartName→none name globs h = All→none (base_fits name) globs (
    map-All (λ glob. any (λ c. c == slash) glob ≡ false → ¬ Glob (pieces glob) name)
      (λ glob. base_fits name glob ≡ false) globs (Apart→base_unfit name) h)

-- The last part of a path is its name.
split-basename :
    (s : Text)
    → (before : List Text) × (split_on slash s ≡ before ++ (basename (split_on slash s) ∷ []))
split-basename s =
    let first_part = split_on-cons slash s in
    let last = append-basename first_part.0 first_part.1 in
    (last.0, subst (λ l. l ≡ last.0 ++ (basename l ∷ [])) (sym first_part.2) last.1)

module _ (rel_posix : Text) where
  named :
      first_of deny_globs (candidates [] (split_on slash rel_posix)) ≡ none
      → matches_deny rel_posix
        ≡ first_glob (base_fits (basename (split_on slash rel_posix))) deny_globs
  unfolding matches_deny
  named e = rw (e, matches_deny) refl

  parent :
      (glob : Text)
      → first_of deny_globs (candidates [] (split_on slash rel_posix)) ≡ some glob
      → matches_deny rel_posix ≡ some glob
  unfolding matches_deny
  parent glob e = rw (e, matches_deny) refl

  pub none→Harmless : matches_deny rel_posix ≡ none → Harmless rel_posix
  unfolding Harmless
  none→Harmless h =
      elim (Option-cases (first_of deny_globs (candidates [] (split_on slash rel_posix)))) [
        | inr (glob, e) ↦ absurd (let bad = parent glob e in cc)
        | inl e ↦ (
          λ before after same ne.
              candidates→parents (Apart deny_globs) [] before after
                (subst (λ l. All (Apart deny_globs) (candidates [] l)) same
                  (first_of→All deny_globs _ e))
                ne,
          λ before name same.
              subst (ApartName deny_globs) (ap basename same ∙ basename-append before name)
                (none→ApartName _ deny_globs (sym (named e) ∙ h)),
        )
      ]

  pub Harmless→none : Harmless rel_posix → matches_deny rel_posix ≡ none
  unfolding Harmless
  Harmless→none (parents, name) =
      let last = split-basename rel_posix in
      named (
        All→first_of deny_globs _
          (parents→candidates (Apart deny_globs) [] (split_on slash rel_posix) parents))
      ∙ ApartName→none _ deny_globs (name last.0 (basename (split_on slash rel_posix)) last.1)

  pub denied_by-none : denied_by rel_posix ≡ none → Harmless rel_posix
  unfolding denied_by
  denied_by-none h = elim (Option-cases (matches_deny rel_posix)) [
    | inl e ↦ none→Harmless e
    | inr (glob, e) ↦
        absurd (let bad : some (denied glob rel_posix) ≡ none = rw (e, denied_by) at h in cc)
  ]

  pub Harmless-denied_by : Harmless rel_posix → denied_by rel_posix ≡ none
  unfolding denied_by
  Harmless-denied_by h = rw (Harmless→none h, denied_by) refl
