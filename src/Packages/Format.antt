-- ===== src/Packages/Format.antt =====
-- `str.format`, for templates whose fields are plain names.
use Prim.Native.Char.{code}
use Prim.Native.String.{◌++◌ as text_append}
use cloudify_system_tests.Prelude.{ℕ, String, Bool, ◌&&◌, Option, none, some, leb, if◌then◌else◌}
use cloudify_system_tests.Dict.{Dict, get}
use cloudify_system_tests.Act.{Reply, value, fault, key_error, value_error, other}
use cloudify_system_tests.Config.Generate.{and_then}

-- Where the reading of a template stands: outside of the fields, after an opening or a closing brace
-- that may be doubled, or in a field, with the name so far.
pub data Reading : Type 0 where
  plain opened closed : Reading
  naming : String → Reading

abbrev is_code : ℕ → ℕ → Bool
is_code c d = leb c d && leb d c

abbrev prepend : String → Reply String → Reply String
prepend t rest = and_then rest (λ s. value (text_append t s))

-- a field, then the rest
abbrev pub filled : Option String → Reply String → Reply String
filled none rest = fault key_error
filled (some v) rest = prepend v rest

-- the codes of `{` and `}` are 123 and 125
unfoldable pub format_from : Dict String → Reading → String → Reply String
format_from fields plain String.[] = value ""
format_from fields opened String.[] = fault value_error
format_from fields closed String.[] = fault value_error
format_from fields (naming name) String.[] = fault value_error
format_from fields plain (String.◌∷◌ c s) =
    let after_open = format_from fields opened s in
    let after_close = format_from fields closed s in
    let rest = format_from fields plain s in
    if is_code 123 (code c)
    then after_open
    else if is_code 125 (code c)
    then after_close
    else prepend (String.◌∷◌ c "") rest
format_from fields opened (String.◌∷◌ c s) =
    let rest = format_from fields plain s in
    let field = format_from fields (naming (String.◌∷◌ c "")) s in
    if is_code 123 (code c)
    then prepend "{" rest
    else if is_code 125 (code c)
    then fault (other 1)
    else field
format_from fields closed (String.◌∷◌ c s) =
    let rest = format_from fields plain s in
    if is_code 125 (code c) then prepend "}" rest else fault value_error
format_from fields (naming name) (String.◌∷◌ c s) =
    let rest = format_from fields plain s in
    let longer = format_from fields (naming (text_append name (String.◌∷◌ c ""))) s in
    if is_code 125 (code c)
    then filled (get name fields) rest
    else if is_code 123 (code c)
    then fault value_error
    else longer

unfoldable pub format : Dict String → String → Reply String
unfolding format_from
format fields template = format_from fields plain template
