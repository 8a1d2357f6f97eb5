-- ===== src/Saml/Times/Laws.antt =====
-- What the times of a response mean, and what can be read back from how they are written.
use mathlib.Core.Path.{subst}
use text.Mathlib.TextLemmas.{nil-append, cons-append, append-eq-nil_iff}
use Prim.Native.Char.{code}
use cloudify_system_tests.Prelude.{
  eq_iff, ap, Option, ◌||◌, ◌≡◌, refl, ℕ, zero, suc, ◌+◌, ◌-◌, ◌*◌, ◌/◌, ◌≤◌, ◌<◌, String, Bool,
  true, false, not, ◌&&◌, ◌==◌, leb, arith, Bool-cases, inl, inr,
}
use cloudify_system_tests.Text.{digit}
use cloudify_system_tests.Act.{value}
use cloudify_system_tests.Saml.Times.{
  zone, millisecond, text_append, make_xml_datetime, ResponseTimes, hours, response_times,
  three_digits, strip_marks,
}

-- The times of a response, against the time of now: it has expired, it is too soon, or it is between them.
abbrev pub IsDue : ℕ → Bool → Bool → ResponseTimes → Type 0
IsDue now true too_soon times = times.expire_time < now
IsDue now false true times = now < times.not_before_time
IsDue now false false times = (times.not_before_time ≤ now) × (now < times.expire_time)

reply_value : {A : Type 0} {a b : A} → value a ≡ value b → a ≡ b
reply_value e = cc

-- Of the times that a response is made with, where the clock is at least ten hours past the epoch: if it
-- is asked to have expired, its time of expiry has passed; if it is asked to be too soon, the time before
-- which it is not valid is still to come; otherwise now is between the two. Both are never asked for.
pub response_times-IsDue :
    (now : ℕ) (expired too_soon : Bool) (times : ResponseTimes)
    → hours 10 ≤ now
    → response_times now expired too_soon ≡ value times
    → IsDue now expired too_soon times × ((expired && too_soon) ≡ false)
unfolding response_times
response_times-IsDue now true true times late e = cc
response_times-IsDue now true false times late e =
    (subst (IsDue now true false) (reply_value e) (omega arith), refl)
response_times-IsDue now false true times late e =
    (subst (IsDue now false true) (reply_value e) (omega arith), refl)
response_times-IsDue now false false times late e =
    (subst (IsDue now false false) (reply_value e) (omega arith, omega arith), refl)

-- What a text of digits behind a dot stands for, in thousandths.
unfoldable pub thousandths_from : ℕ → String → ℕ
thousandths_from weight String.[] = 0
thousandths_from weight (String.◌∷◌ c s) = (code c - 48) * weight + thousandths_from (weight / 10) s

abbrev pub thousandths : String → ℕ
thousandths s = thousandths_from 100 s

abbrev same : ℕ → ℕ → Bool
same a b = leb a b && leb b a

-- the digits can be read back, and there are some, unless all of them are zero
unfoldable reads_back : ℕ → Bool
unfolding strip_marks three_digits thousandths_from digit
reads_back n =
    same n 0
    || (not (strip_marks (three_digits n) == "")
        && same (thousandths (strip_marks (three_digits n))) n)

unfoldable all_below : ℕ → (ℕ → Bool) → Bool
all_below zero test = true
all_below (suc n) test = test n && all_below n test

all_below_inv : (n k : ℕ) (test : ℕ → Bool) → all_below n test ≡ true → k < n → test k ≡ true
unfolding all_below
all_below_inv zero k test e h = absurd (omega arith)
all_below_inv (suc n) k test e h = elim (Bool-cases (leb n k)) [
  | inl last ↦ ground (arith, e, last)
  | inr before ↦ all_below_inv n k test (ground (arith, e)) (ground (arith, before))
]

all_read_back : all_below 1000 reads_back ≡ true
unfolding all_below reads_back
all_read_back = refl

not_blank : (a b : String) → (b == "") ≡ false → (text_append a b == "") ≡ false
not_blank a b h = elim (Bool-cases (text_append a b == "")) [
  | inl blank ↦
      let e : b ≡ "" =
        ((append-eq-nil_iff {p = a} {q = b}).0 ((eq_iff (text_append a b) "").0 blank)).1 in
      cc (h, (eq_iff b "").1 e)
  | inr more ↦ more
]

-- The marks at the end of a text that has more than marks there are stripped off its end only.
strip_marks-append :
    (a b : String)
    → (strip_marks b == "") ≡ false
    → strip_marks (text_append a b) ≡ text_append a (strip_marks b)
unfolding strip_marks
strip_marks-append String.[] b h = rw (nil-append, nil-append) refl
strip_marks-append (String.◌∷◌ c a) b h =
    rw (cons-append, cons-append)
      (rw (strip_marks-append a b h) (rw (not_blank a (strip_marks b) h) refl))

-- Where a time has milliseconds, it is written with all that `strftime` gives, digits that stand for
-- its milliseconds, and a zone: nothing but zeros at the end has been lost.
pub make_xml_datetime-reads :
    (strftime : ℕ → String) (datetime_input : ℕ) (tz : Option String)
    → 0 < millisecond datetime_input
    → (fraction : String) × (make_xml_datetime strftime datetime_input tz
        ≡ text_append (text_append (strftime datetime_input) fraction) (zone tz))
      × (thousandths fraction ≡ millisecond datetime_input)
unfolding make_xml_datetime reads_back
make_xml_datetime-reads strftime t tz h =
    let n = millisecond t in
    let good = all_below_inv 1000 n reads_back all_read_back (omega arith) in
    let (some_left, read) = reads_back_inv n h good in
    (
      strip_marks (three_digits n),
      ap (λ s. text_append s (zone tz))
          (strip_marks-append (strftime t) (three_digits n) some_left),
      read,
    )
  where
    reads_back_inv :
        (n : ℕ)
        → 0 < n
        → reads_back n ≡ true
        → ((strip_marks (three_digits n) == "") ≡ false)
          × (thousandths (strip_marks (three_digits n)) ≡ n)
    reads_back_inv n h e = (ground (arith, e), ground (arith, e))
