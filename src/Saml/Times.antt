-- ===== src/Saml/Times.antt =====
-- The times of a SAML response, in microseconds since the epoch, and how they are written.
pub mod Laws
use Prim.Native.Char.{code}
use Prim.Native.Nat.{◌%◌}
use Prim.Native.String.{◌++◌ as text_append}
use cloudify_system_tests.Prelude.{
  ℕ, ◌+◌, ◌-◌, ◌*◌, ◌/◌, String, Bool, true, false, ◌&&◌, ◌||◌, Option, none, some, List, [], ◌∷◌,
  ◌==◌, leb, if◌then◌else◌,
}
use cloudify_system_tests.Text.{concat, digit}
use cloudify_system_tests.Act.{Reply, value, fault, runtime_error}

abbrev minutes : ℕ → ℕ
minutes n = n * 60 * 1000000

abbrev pub hours : ℕ → ℕ
hours n = minutes (n * 60)

pub record ResponseTimes : Type 0 where
  pub issue_time : ℕ
  pub not_before_time : ℕ
  pub expire_time : ℕ

abbrev pub times_from : ℕ → ResponseTimes
times_from issue_time = record {
  issue_time = issue_time;
  not_before_time = issue_time - minutes 10;
  expire_time = issue_time + minutes 5;
}

-- the first part of `make_response`; the clock is at least ten hours past the epoch
unfoldable pub response_times : ℕ → Bool → Bool → Reply ResponseTimes
response_times now true true = fault runtime_error
response_times now true false = value (times_from (now - hours 10))
response_times now false true = value (times_from (now + hours 10))
response_times now false false = value (times_from now)

-- `'{:03}'.format(n)`, for an `n` below a thousand
unfoldable pub three_digits : ℕ → String
three_digits n = concat (digit (n / 100) ∷ digit (n / 10 % 10) ∷ digit (n % 10) ∷ [])

-- `s.rstrip('0.')`: the codes of the two characters are 48 and 46
unfoldable pub strip_marks : String → String
strip_marks String.[] = ""
strip_marks (String.◌∷◌ c s) =
    let rest = strip_marks s in
    if rest == "" && ((leb 48 (code c) && leb (code c) 48) || (leb 46 (code c) && leb (code c) 46))
    then ""
    else String.◌∷◌ c rest

-- `if tz:`
abbrev pub zone : Option String → String
zone none = "Z"
zone (some tz) = if tz == "" then "Z" else tz

-- `datetime_input.microsecond // 1000`
abbrev pub millisecond : ℕ → ℕ
millisecond t = t % 1000000 / 1000

unfoldable pub make_xml_datetime : (ℕ → String) → ℕ → Option String → String
make_xml_datetime strftime datetime_input tz =
    text_append
      (strip_marks
        (text_append (strftime datetime_input) (three_digits (millisecond datetime_input))))
      (zone tz)
