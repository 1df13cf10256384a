-- ===== src/Prelude/Texts.antt =====
-- Texts as lists of code points, with the methods of Python's `str` that the program uses, and
-- `fnmatch.fnmatch` of its standard library (on a system whose file names keep their case).
use Prim.Native.Nat.{ℕ, zero, suc, ◌+◌}
use Prim.Native.Char.{code}
use Prim.Native.String.{String}
use mathlib.Core.Path.{◌≡◌, refl, subst}
use mathlib.Core.Logic.{◌↔◌}
use mathlib.Core.Bool.{Bool, true, false, not, ◌&&◌, ◌||◌}
use mathlib.Core.List.{List, [], ◌∷◌, ◌++◌, map, reverse, reverse_aux}
use mathlib.Core.Option.{Option, none, some}
use native.Mathlib.Omega.{arith}
use jobserv.Prelude.Tests.{leb, ◌==◌, if◌then◌else◌}
use jobserv.Prelude.Lists.{length, any}

abbrev pub Text : Type 0
Text = List ℕ

abbrev pub text : String → Text
text String.[] = []
text (String.◌∷◌ c s) = code c ∷ text s

-- Equality of texts.
unfoldable pub text_eq : Text → Text → Bool
text_eq [] [] = true
text_eq [] (y ∷ t) = false
text_eq (x ∷ s) [] = false
text_eq (x ∷ s) (y ∷ t) = x == y && text_eq s t

pub text_eq_refl : (s : Text) → text_eq s s ≡ true
unfolding text_eq
text_eq_refl [] = refl
text_eq_refl (x ∷ s) = ground (arith, text_eq_refl s)

pub text_eq→eq : (s t : Text) → text_eq s t ≡ true → s ≡ t
unfolding text_eq
text_eq→eq [] [] h = refl
text_eq→eq [] (y ∷ t) h = cc
text_eq→eq (x ∷ s) [] h = cc
text_eq→eq (x ∷ s) (y ∷ t) h = ground (arith, text_eq→eq s t)

pub text_eq_iff : (s t : Text) → (text_eq s t ≡ true) ↔ (s ≡ t)
text_eq_iff s t = (text_eq→eq s t, λ e. subst (λ u. text_eq s u ≡ true) e (text_eq_refl s))

-- `t in l`
abbrev pub has_text : Text → List Text → Bool
has_text t = any (λ s. text_eq s t)

-- `s.startswith(p)`
unfoldable pub starts_with : Text → Text → Bool
starts_with [] s = true
starts_with (c ∷ p) [] = false
starts_with (c ∷ p) (d ∷ s) = c == d && starts_with p s

-- `s.split(sep)` for a separator of one character.
split_on : ℕ → Text → Text → List Text
split_on sep word [] = reverse word ∷ []
split_on sep word (c ∷ s) =
    let next = split_on sep [] s in
    let more = split_on sep (c ∷ word) s in if c == sep then reverse word ∷ next else more

unfoldable pub split : ℕ → Text → List Text
unfolding split_on
split sep s = split_on sep [] s

-- A text without the separator is one part.
split_on-one :
    (sep : ℕ) (word s : Text)
    → any (λ c. c == sep) s ≡ false
    → split_on sep word s ≡ reverse_aux word s ∷ []
unfolding split_on
split_on-one sep word [] h = refl
split_on-one sep word (c ∷ s) h = ground (arith, h, split_on-one sep (c ∷ word) s)

-- A text up to its first separator, and the parts after it.
split_on-append :
    (sep : ℕ) (word s t : Text)
    → any (λ c. c == sep) s ≡ false
    → split_on sep word (s ++ sep ∷ t) ≡ reverse_aux word s ∷ split_on sep [] t
unfolding split_on
split_on-append sep word [] t h = ground arith
split_on-append sep word (c ∷ s) t h = ground (arith, h, split_on-append sep (c ∷ word) s t)

pub split-append :
    (sep : ℕ) (s t : Text)
    → any (λ c. c == sep) s ≡ false
    → split sep (s ++ sep ∷ t) ≡ s ∷ split sep t
unfolding split
split-append sep s t h = split_on-append sep [] s t h

pub split-one : (sep : ℕ) (s : Text) → any (λ c. c == sep) s ≡ false → split sep s ≡ s ∷ []
unfolding split
split-one sep s h = split_on-one sep [] s h

is_space : ℕ → Bool
is_space c = c == 32 || (leb 9 c && leb c 13) || (leb 28 c && leb c 31)

lstrip : Text → Text
unfolding is_space
lstrip [] = []
lstrip (c ∷ s) = if is_space c then lstrip s else c ∷ s

-- `s.strip()`
unfoldable pub strip : Text → Text
unfolding lstrip
strip s = reverse (lstrip (reverse (lstrip s)))

-- `s.lower()`, on ASCII
unfoldable pub lower : Text → Text
lower = map (λ c. if leb b'A' c && leb c b'Z' then c + 32 else c)

-- Whether a set such as `a-z_` holds a character.
in_set : ℕ → Text → Bool
in_set x [] = false
in_set x (a ∷ []) = x == a
in_set x (a ∷ b ∷ []) = x == a || x == b
in_set x (a ∷ b ∷ c ∷ rest) =
    let range = (leb a x && leb x c) || in_set x rest in
    let plain = x == a || in_set x (b ∷ c ∷ rest) in if b == b'-' then range else plain

-- The text before the first `]` and the text behind it.
until_bracket : Text → Text → Option (Text × Text)
until_bracket seen [] = none
until_bracket seen (c ∷ s) =
    let more = until_bracket (c ∷ seen) s in if c == b']' then some (reverse seen, s) else more

-- The set that an opening bracket begins; a `]` in the first place belongs to it.
set_body : Text → Option (Text × Text)
unfolding until_bracket
set_body [] = none
set_body (c ∷ s) = until_bracket (c ∷ []) s

signed : Bool → Option (Text × Text) → Option (Bool × Text × Text)
signed negated none = none
signed negated (some (chars, rest)) = some (negated, chars, rest)

-- A set with its sign, and the pattern behind it.
bracket : Text → Option (Bool × Text × Text)
unfolding set_body signed
bracket [] = none
bracket (c ∷ s) = if c == b'!' then signed true (set_body s) else signed false (set_body (c ∷ s))

-- Some end of the text passes the test.
some_end : (Text → Bool) → Text → Bool
some_end p [] = p []
some_end p (c ∷ s) = let more = some_end p s in if p (c ∷ s) then true else more

eat : (ℕ → Bool) → (Text → Bool) → Text → Bool
eat p rest [] = false
eat p rest (c ∷ s) = p c && rest s

-- One round for each character of the pattern is enough.
glob : ℕ → Text → Text → Bool
unfolding in_set some_end eat bracket
glob zero pat [] = true
glob zero pat (c ∷ s) = false
glob (suc n) [] [] = true
glob (suc n) [] (c ∷ s) = false
glob (suc n) (p ∷ pat) name =
    let star = some_end (glob n pat) name in
    let one = eat (λ c. true) (glob n pat) name in
    let same = eat (λ c. c == p) (glob n pat) name in
    let set : Bool = elim (bracket pat) [
      | none ↦ eat (λ c. c == p) (glob n pat) name
      | some (negated, chars, rest) ↦
          eat (λ c. if negated then not (in_set c chars) else in_set c chars) (glob n rest) name
    ] in
    if p == b'*' then star else if p == b'?' then one else if p == b'[' then set else same

unfoldable pub fnmatch : Text → Text → Bool
unfolding glob
fnmatch name pat = glob (length pat) pat name

wildcard : fnmatch (text "arm64-lab1") (text "arm*-[a-l]ab?") ≡ true
unfolding fnmatch
wildcard = refl

refused : fnmatch (text "arm64") (text "arm[!0-9]*") ≡ false
unfolding fnmatch
refused = refl

tags : map strip (split b',' (text "amd64, arm ,")) ≡ text "amd64" ∷ text "arm" ∷ [] ∷ []
unfolding split strip
tags = refl
