-- ===== src/Sorting/Keys.antt =====
-- The order of texts, by their code points, and of tuples.
use Prim.Native.Nat.{compare as compare_ℕ, Ordering}
use Prim.Native.Char.{code}
use Prim.Native.String.{compare, then as lexically}
use Prim.Native.String.compare as texts
use text.Mathlib.Text.{is_le}
use text.Mathlib.TextEquality.{path_by_compare}
use cloudify_system_tests.Prelude.{ℕ, ◌≡◌, refl, String, Bool, true, false, if◌then◌else◌, arith}
use cloudify_system_tests.Sorting.{Ordered}

abbrev flip : Ordering → Ordering
flip Ordering.lt = Ordering.gt
flip Ordering.eq = Ordering.eq
flip Ordering.gt = Ordering.lt

flip_codes : (m n : ℕ) → compare_ℕ n m ≡ flip (compare_ℕ m n)
flip_codes m n = ground arith

flip-then : (o p : Ordering) → flip (lexically o p) ≡ lexically (flip o) (flip p)
flip-then Ordering.lt p = refl
flip-then Ordering.eq p = refl
flip-then Ordering.gt p = refl

pub flip-compare : (s t : String) → compare t s ≡ flip (compare s t)
flip-compare String.[] String.[] = refl
flip-compare String.[] (String.◌∷◌ d t) = rw (texts.cons-nil d t, texts.nil-cons d t) refl
flip-compare (String.◌∷◌ c s) String.[] = rw (texts.cons-nil c s, texts.nil-cons c s) refl
flip-compare (String.◌∷◌ c s) (String.◌∷◌ d t) =
    rw
      (
        texts.cons-cons d c t s,
        texts.cons-cons c d s t,
        flip-then,
        flip_codes (code c) (code d),
        flip-compare s t,
      )
      refl

pub le_or_flip : (o : Ordering) → is_le o ≡ false → is_le (flip o) ≡ true
le_or_flip o h = ground arith

pub le_and_flip : (o : Ordering) → is_le o ≡ true → is_le (flip o) ≡ true → o ≡ Ordering.eq
le_and_flip o h k = ground arith

then_trans :
    (a b c : ℕ) (p q r : Ordering)
    → (is_le p ≡ true → is_le q ≡ true → is_le r ≡ true)
    → is_le (lexically (compare_ℕ a b) p) ≡ true
    → is_le (lexically (compare_ℕ b c) q) ≡ true
    → is_le (lexically (compare_ℕ a c) r) ≡ true
then_trans a b c p q r h k l = ground (arith, h)

pub text_trans :
    (s t u : String)
    → is_le (compare s t) ≡ true
    → is_le (compare t u) ≡ true
    → is_le (compare s u) ≡ true
text_trans String.[] t String.[] h k = refl
text_trans String.[] t (String.◌∷◌ e u) h k = rw (texts.nil-cons e u) refl
text_trans (String.◌∷◌ c s) String.[] u h k = cc (rw (texts.cons-nil c s) at h)
text_trans (String.◌∷◌ c s) (String.◌∷◌ d t) String.[] h k = cc (rw (texts.cons-nil d t) at k)
text_trans (String.◌∷◌ c s) (String.◌∷◌ d t) (String.◌∷◌ e u) h k = rw (texts.cons-cons c e s u) (
    then_trans (code c) (code d) (code e) (compare s t) (compare t u) (compare s u)
      (text_trans s t u) (rw (texts.cons-cons c d s t) at h) (rw (texts.cons-cons d e t u) at k))

instance unfoldable pub text_order : Ordered String
text_order = record {
  le = λ s t. is_le (compare s t);
  total = λ s t h. rw (flip-compare s t) (le_or_flip (compare s t) h);
  antisym =
      λ s t h k. path_by_compare s t (le_and_flip (compare s t) h (rw (flip-compare s t) at k));
  trans = text_trans;
}

-- Tuples compare by what stands first, and where that is equal by the rest.
module _ {ℓ κ} {A : Type ℓ} {B : Type κ} ⦃a : Ordered A⦄ ⦃b : Ordered B⦄ where
  abbrev le_pair : A × B → A × B → Bool
  le_pair x y = if a.le x.0 y.0 then (if a.le y.0 x.0 then b.le x.1 y.1 else true) else false

  pub pair_total : (x y : A × B) → le_pair x y ≡ false → le_pair y x ≡ true
  pair_total x y h = ground (arith, a.total x.0 y.0, b.total x.1 y.1)

  pub pair_antisym : (x y : A × B) → le_pair x y ≡ true → le_pair y x ≡ true → x ≡ y
  pair_antisym x y h k = ground (arith, a.antisym x.0 y.0, b.antisym x.1 y.1)

  pub pair_trans : (x y z : A × B) → le_pair x y ≡ true → le_pair y z ≡ true → le_pair x z ≡ true
  pair_trans x y z h k =
      ground
        (arith, a.trans x.0 y.0 z.0, a.trans z.0 x.0 y.0, a.trans y.0 z.0 x.0, b.trans x.1 y.1 z.1)

  instance unfoldable pub pair_order : Ordered (A × B)
  pair_order = record {
    le = le_pair;
    total = pair_total;
    antisym = pair_antisym;
    trans = pair_trans;
  }
