-- ===== src/Base/Text.antt =====
-- Python's `str`: the code points of a text, `strip`, `startswith`, `split` and `join` at a line
-- break, and `int` of a text.
use Prim.Native.Nat.{ℕ, zero, suc, ◌+◌, ◌-◌, ◌*◌}
use Prim.Native.Char.{code}
use Prim.Native.String.{String}
use mathlib.Core.Path.{◌≡◌, refl, subst}
use mathlib.Core.Logic.{◌≢◌, ◌↔◌, inl, inr}
use mathlib.Core.Bool.{Bool, true, false, ◌&&◌, ◌||◌}
use mathlib.Core.Option.{Option, none, some}
use mathlib.Core.List.{List, [], ◌∷◌, reverse, map}
use native.Mathlib.Omega.{arith}
use dev_harness.Base.Tests.{leb, ◌==◌, if◌then◌else◌, Bool-cases}
use dev_harness.Base.Lists.{All, any}
use dev_harness.Base.Integers.{ℤ, pos, negsuc}

-- A text as its code points.
abbrev pub Text : Type 0
Text = List ℕ

abbrev pub codes : String → Text
codes String.[] = []
codes (String.◌∷◌ c s) = code c ∷ codes s

-- `str.isspace` of one character.
unfoldable pub is_space : ℕ → Bool
is_space c =
    (leb 9 c && leb c 13)
    || (leb 28 c && leb c 32)
    || c == 133
    || c == 160
    || c == 5760
    || (leb 8192 c && leb c 8202)
    || c == 8232
    || c == 8233
    || c == 8239
    || c == 8287
    || c == 12288

-- `drop_while p s` is `s.lstrip(chars)` for the characters where `p` holds.
unfoldable pub drop_while : (ℕ → Bool) → Text → Text
drop_while p [] = []
drop_while p (c ∷ s) = let rest = drop_while p s in if p c then rest else c ∷ s

unfoldable pub strip : Text → Text
unfolding drop_while is_space
strip s = reverse (drop_while is_space (reverse (drop_while is_space s)))

-- `not s.strip()`
unfoldable pub is_blank : Text → Bool
unfolding is_space
is_blank [] = true
is_blank (c ∷ s) = is_space c && is_blank s

abbrev pub text_eq : Text → Text → Bool
text_eq [] [] = true
text_eq (a ∷ s) (b ∷ t) = a == b && text_eq s t
text_eq [] (b ∷ t) = false
text_eq (a ∷ s) [] = false

unfoldable pub starts_with : Text → Text → Bool
starts_with s [] = true
starts_with [] (p ∷ ps) = false
starts_with (c ∷ s) (p ∷ ps) = c == p && starts_with s ps

-- Decimal digits with single underscores between them; `digit` tells that a digit stands before.
digits_from : ℕ → Bool → Text → Option ℕ
digits_from n true [] = some n
digits_from n false [] = none
digits_from n digit (c ∷ s) =
    let next = digits_from (n * 10 + (c - 48)) true s in
    let gap = digits_from n false s in
    if leb 48 c && leb c 57 then next else if digit && c == 95 then gap else none

negated : Option ℕ → Option ℤ
negated none = none
negated (some zero) = some (pos 0)
negated (some (suc n)) = some (negsuc n)

plain : Option ℕ → Option ℤ
plain none = none
plain (some n) = some (pos n)

signed : Text → Option ℤ
signed [] = none
signed (c ∷ s) =
    if c == 45
    then negated (digits_from 0 false s)
    else if c == 43
    then plain (digits_from 0 false s)
    else plain (digits_from 0 false (c ∷ s))

-- `int(s)` for ASCII digits; `none` is `ValueError`.
unfoldable pub parse_int : Text → Option ℤ
unfolding signed digits_from negated plain strip
parse_int s = signed (strip s)

parse_int_samples :
    (parse_int (codes " 42\n") ≡ some (pos 42))
    × (parse_int (codes "-7") ≡ some (negsuc 6))
    × (parse_int (codes "1_000") ≡ some (pos 1000))
    × (parse_int (codes "1__0") ≡ none)
    × (parse_int (codes "soon") ≡ none)
unfolding parse_int
parse_int_samples = (refl, refl, refl, refl, refl)

pub text_eq→eq : (s t : Text) → text_eq s t ≡ true → s ≡ t
text_eq→eq [] [] h = refl
text_eq→eq (a ∷ s) (b ∷ t) h = ground (arith, text_eq→eq s t)
text_eq→eq [] (b ∷ t) h = cc
text_eq→eq (a ∷ s) [] h = cc

pub text_eq_refl : (s : Text) → text_eq s s ≡ true
text_eq_refl [] = refl
text_eq_refl (a ∷ s) = ground (arith, text_eq_refl s)

pub text_eq→ne : (s t : Text) → text_eq s t ≡ false → s ≢ t
text_eq→ne s t h e =
    let same : text_eq s t ≡ true = subst (λ u. text_eq s u ≡ true) e (text_eq_refl s) in cc

pub ne→text_eq : (s t : Text) → s ≢ t → text_eq s t ≡ false
ne→text_eq s t h = elim (Bool-cases (text_eq s t)) [
  | inl e ↦ absurd (h (text_eq→eq s t e))
  | inr e ↦ e
]

-- No part of a list is the text.
pub any→All :
    (t : Text) (parts : List Text) → any (λ p. text_eq p t) parts ≡ false → All (λ p. p ≢ t) parts
any→All t [] h = tt
any→All t (p ∷ parts) h =
    let here : text_eq p t ≡ false = ground arith in
    let there : any (λ q. text_eq q t) parts ≡ false = ground arith in
    (text_eq→ne p t here, any→All t parts there)

pub All→any :
    (t : Text) (parts : List Text) → All (λ p. p ≢ t) parts → any (λ p. text_eq p t) parts ≡ false
All→any t [] h = refl
All→any t (p ∷ parts) h = rw (ne→text_eq p t h.0) (All→any t parts h.1)

pub text_iff : (s t : Text) → (text_eq s t ≡ true) ↔ (s ≡ t)
text_iff s t = (text_eq→eq s t, λ e. subst (λ u. text_eq s u ≡ true) e (text_eq_refl s))

-- `s.lower()` on the letters of ASCII.
unfoldable pub lower : Text → Text
lower s = map (λ c. if leb 65 c && leb c 90 then c + 32 else c) s
