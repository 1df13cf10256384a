-- ===== src/Prelude/Format.antt =====
-- `str.format` with named fields, and dictionaries of texts. A conversion or a format spec in a
-- field is taken for a part of its name, which no argument has.
use mathlib.Core.Path.{◌≡◌, refl}
use mathlib.Core.List.{List, [], ◌∷◌, ◌++◌, reverse}
use mathlib.Core.Option.{Option, none, some}
use native.Mathlib.Omega.{arith}
use jobserv.Prelude.Tests.{◌==◌, if◌then◌else◌}
use jobserv.Prelude.Texts.{Text, text, text_eq, text_eq→eq}

-- `d.get(k)` and `d[k] = v` for keys that are texts.
unfoldable pub lookup {ℓ} : {V : Type ℓ} → Text → List (Text × V) → Option V
lookup k [] = none
lookup k ((j, v) ∷ m) = if text_eq j k then some v else lookup k m

unfoldable pub store {ℓ} : {V : Type ℓ} → Text → V → List (Text × V) → List (Text × V)
store k v [] = (k, v) ∷ []
store k v ((j, w) ∷ m) = if text_eq j k then (k, v) ∷ m else (j, w) ∷ store k v m

pub lookup-store {ℓ} :
    {V : Type ℓ} (k j : Text) (v : V) (m : List (Text × V))
    → lookup j (store k v m) ≡ (if text_eq k j then some v else lookup j m)
unfolding lookup store
lookup-store k j v [] = refl
lookup-store k j v ((i, w) ∷ m) =
    ground (arith, lookup-store k j v m, text_eq→eq i k, text_eq→eq i j, text_eq→eq k j)

pub data Formatted : Type 0 where
  formatted : Text → Formatted
  value_error lookup_error : Formatted

pub data Mode : Type 0 where
  plain opened closed : Mode
  field : Text → Mode

prepend : Text → Formatted → Formatted
prepend s (formatted t) = formatted (s ++ t)
prepend s value_error = value_error
prepend s lookup_error = lookup_error

fill : Option Text → Formatted → Formatted
unfolding prepend
fill none rest = lookup_error
fill (some v) rest = prepend v rest

format_from : List (Text × Text) → Mode → Text → Formatted
unfolding fill
format_from args plain [] = formatted []
format_from args plain (c ∷ s) =
    let open_field = format_from args opened s in
    let close_brace = format_from args closed s in
    let other = prepend (c ∷ []) (format_from args plain s) in
    if c == b'{' then open_field else if c == b'}' then close_brace else other
format_from args opened [] = value_error
format_from args opened (c ∷ s) =
    let brace = prepend (c ∷ []) (format_from args plain s) in
    let name = format_from args (field (c ∷ [])) s in
    if c == b'{' then brace else if c == b'}' then lookup_error else name
format_from args closed [] = value_error
format_from args closed (c ∷ s) =
    let brace = prepend (c ∷ []) (format_from args plain s) in
    if c == b'}' then brace else value_error
format_from args (field name) [] = value_error
format_from args (field name) (c ∷ s) =
    let value = fill (lookup (reverse name) args) (format_from args plain s) in
    let more = format_from args (field (c ∷ name)) s in if c == b'}' then value else more

unfoldable pub format : List (Text × Text) → Text → Formatted
unfolding format_from
format args template = format_from args plain template

format_name :
    format ((text "name", text "unit") ∷ []) (text "{name}-{{x}}") ≡ formatted (text "unit-{x}")
unfolding format lookup text_eq
format_name = refl
