-- ===== src/Compose/Tests.antt =====
-- Texts that are interpolated, and runs of the theorems.
use dicer.Prelude.{◌≡◌, ◌≢◌, refl, true, Option, none, some, [], arith, if◌then◌else◌, ◌==◌}
use dicer.Text.{Runes, runes_Eq, codes}
use dicer.Compose.{text, failed, out_of_fuel, no_closing_brace, no_name, required}
use dicer.Compose.Interpolate.{interpolate, interpolate_in, is_name_start, is_name_character}
use dicer.Compose.Ends.{interpolate-Ends}
use dicer.Compose.Template.{
  Template, end, literal, dollar, bare_variable, braced_variable, choice, default_to, print,
  meaning, IsTemplate,
}
use dicer.Compose.Meaning.{interpolate-print}

-- TAG is set, E is set to nothing, and nothing else is set.
abbrev environment : Runes → Option Runes
environment name =
    if name == codes "TAG" then some (codes "v1") else if name == codes "E" then some [] else none

set_variable : interpolate environment (codes "web:$TAG-x") ≡ text (codes "web:v1-x")
unfolding interpolate
set_variable = refl

nested_default : interpolate environment (codes "${A:-${E:-b$$}}d") ≡ text (codes "b$d")
unfolding interpolate
nested_default = refl

empty_without_colon : interpolate environment (codes "${E-x}") ≡ text []
unfolding interpolate
empty_without_colon = refl

required_message :
    interpolate environment (codes "${A:?no $TAG}") ≡ failed (required (codes "A") (codes "no v1"))
unfolding interpolate
required_message = refl

not_closed : interpolate environment (codes "a${TAG") ≡ failed no_closing_brace
unfolding interpolate
not_closed = refl

digit_first : interpolate environment (codes "${1A}") ≡ failed no_name
unfolding interpolate
digit_first = refl

-- An escaped dollar before a brace is text outside of a default, and opens a brace inside of one.
escaped_outside : interpolate environment (codes "$${") ≡ text (codes "${")
unfolding interpolate
escaped_outside = refl

escaped_inside : interpolate environment (codes "${A:-$${}") ≡ failed no_closing_brace
unfolding interpolate
escaped_inside = refl

interpolate-Ends_example :
    (interpolate_in environment 20 (codes "${A:-${TAG}}")
      ≡ interpolate environment (codes "${A:-${TAG}}"))
    × (interpolate environment (codes "${A:-${TAG}}") ≢ out_of_fuel)
interpolate-Ends_example = interpolate-Ends environment 20 (codes "${A:-${TAG}}") (omega arith)

-- `a$$${A:-${TAG}b}$TAG`.
abbrev written : Template
written = literal 97 (
    dollar (
      choice (codes "A") true default_to (braced_variable (codes "TAG") (literal 98 end))
        (bare_variable (codes "TAG") end)))

written-IsTemplate : IsTemplate written
unfolding is_name_start is_name_character print
written-IsTemplate = (
  (λ e. absurd (omega (arith, e))),
  (λ e. absurd (omega (arith, e))),
  (λ e. absurd (omega (arith, e))),
  (
    (refl, tt),
    (
      (refl, (refl, (refl, tt))),
      (
        (λ e. absurd (omega (arith, e))),
        (λ e. absurd (omega (arith, e))),
        (λ e. absurd (omega (arith, e))),
        tt,
      ),
    ),
    ((refl, (refl, (refl, tt))), tt, tt),
  ),
)

interpolate-print_example : interpolate environment (print written) ≡ meaning environment written
interpolate-print_example = interpolate-print environment written written-IsTemplate
