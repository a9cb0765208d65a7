-- ===== src/Asn1/Header/Bounds.antt =====
-- What a header that was read says of the input, and which errors a header can have.
use tongsuo_go.Base.{
  ℕ, ◌+◌, ◌*◌, ◌≤◌, ◌%◌, ◌^◌, [], ◌∷◌, ◌≡◌, refl, subst, ap, sym, ◌∙◌, arith, length, length-take,
  length-drop, take, drop, Result, ok, err, ◌>>=◌, >>=-eq-ok, ok-injective, err-injective, Bool,
  true, false, if◌then◌else◌, ◌==◌, ◌||◌, Bool-cases, inl, inr, ltb, ltb→ge,
}
use tongsuo_go.Asn1.Node.{
  Bytes, Header, ParseError, truncated, truncated_tag, truncated_length, indefinite_length,
  long_form_length, bad_length,
}
use tongsuo_go.Asn1.Header.{
  parse_long_length, parse_length, high_number, tag_number, finish_header, parse_header,
}

high_number-bounds :
    (number off : ℕ) (bytes : Bytes) (n off' : ℕ) (rest : Bytes)
    → high_number number off bytes ≡ ok (n, off', rest)
    → (off' + length rest ≡ off + length bytes) × (off ≤ off')
unfolding high_number
high_number-bounds number off [] n off' rest e = cc
high_number-bounds number off (b ∷ bs) n off' rest e =
    ground (arith, high_number-bounds ((number * 128 + b % 128) % 2 ^ 64) (off + 1) bs n off' rest)

tag_number-bounds :
    (tag : ℕ) (bytes : Bytes) (n off : ℕ) (rest : Bytes)
    → tag_number tag bytes ≡ ok (n, off, rest)
    → (off + length rest ≡ 1 + length bytes) × (1 ≤ off)
unfolding tag_number
tag_number-bounds tag bytes n off rest e = ground (arith, high_number-bounds 0 1 bytes n off rest)

parse_length-bounds :
    (bytes : Bytes) (size used : ℕ)
    → parse_length bytes ≡ ok (size, used)
    → (1 ≤ used) × (used ≤ length bytes)
unfolding parse_length parse_long_length
parse_length-bounds [] size used e = cc
parse_length-bounds (b ∷ bs) size used e = ground arith

-- The header of a value that lies within the input.
pub record IsWithin (base : ℕ) (der : Bytes) (h : Header) (used : ℕ) : Type 0 where
  pub offset : h.offset ≡ base
  pub value : length h.value ≡ h.size
  pub shorter : h.size + 2 ≤ used
  pub inside : used ≤ length der

finish_header-IsWithin :
    (base tag number off size : ℕ) (rest der : Bytes) (h : Header) (used : ℕ)
    → 2 ≤ off
    → off + length rest ≡ length der
    → finish_header base tag number off size rest ≡ ok (h, used)
    → IsWithin base der h used
unfolding finish_header
finish_header-IsWithin base tag number off size rest der h used two whole e =
    elim (Bool-cases (ltb (length rest) size)) [
      | inl short ↦ absurd (cc (rw short at e))
      | inr room ↦
          let pair = ok-injective (rw room at e) in
          let size_eq : size ≡ h.size = ap (λ (x : Header × ℕ). x.0.size) pair in
          let value_eq : take size rest ≡ h.value = ap (λ (x : Header × ℕ). x.0.value) pair in
          let used_eq : off + size ≡ used = ap (λ (x : Header × ℕ). x.1) pair in
          let fits = ltb→ge _ _ room in
          record {
            offset = sym (ap (λ (x : Header × ℕ). x.0.offset) pair);
            value = rw (← value_eq) (length-take size rest fits ∙ size_eq);
            shorter = omega arith;
            inside = omega arith;
          }
    ]

-- The three steps of a header that was read.
record HeaderRead (tag : ℕ) (bytes : Bytes) (base : ℕ) (h : Header) (used : ℕ) : Type 0 where
  number : ℕ
  off : ℕ
  rest : Bytes
  size : ℕ
  size_bytes : ℕ
  tagged : tag_number tag bytes ≡ ok (number, off, rest)
  sized : parse_length rest ≡ ok (size, size_bytes)
  finished :
      finish_header base tag number (off + size_bytes) size (drop size_bytes rest) ≡ ok (h, used)

parse_header-HeaderRead :
    (tag : ℕ) (bytes : Bytes) (base : ℕ) (h : Header) (used : ℕ)
    → parse_header (tag ∷ bytes) base ≡ ok (h, used)
    → HeaderRead tag bytes base h used
unfolding parse_header
parse_header-HeaderRead tag bytes base h used e =
    let ((number, off, rest), et, r) = >>=-eq-ok (tag_number tag bytes) _ e in
    let ((size, size_bytes), es, f) = >>=-eq-ok (parse_length rest) _ r in
    record {
      number = number;
      off = off;
      rest = rest;
      size = size;
      size_bytes = size_bytes;
      tagged = et;
      sized = es;
      finished = f;
    }

-- A header that parse_header returns has the given offset, a value of the stated size, and lies
-- within the input with two bytes or more before the value.
pub parse_header-IsWithin :
    (der : Bytes) (base : ℕ) (h : Header) (used : ℕ)
    → parse_header der base ≡ ok (h, used)
    → IsWithin base der h used
parse_header-IsWithin [] base h used e = unfold parse_header in cc
parse_header-IsWithin (tag ∷ bytes) base h used e =
    let r = parse_header-HeaderRead tag bytes base h used e in
    let (whole, off_pos) = tag_number-bounds tag bytes r.number r.off r.rest r.tagged in
    let (size_pos, size_fits) = parse_length-bounds r.rest r.size r.size_bytes r.sized in
    finish_header-IsWithin base tag r.number (r.off + r.size_bytes) r.size
      (drop r.size_bytes r.rest) (tag ∷ bytes) h used (omega arith)
      (omega (arith, length-drop r.size_bytes r.rest)) r.finished

-- A header has none of the errors of the nesting and of the limits.
abbrev pub IsHeaderError : ParseError → Type 0
IsHeaderError truncated = Unit {0}
IsHeaderError truncated_tag = Unit {0}
IsHeaderError truncated_length = Unit {0}
IsHeaderError indefinite_length = Unit {0}
IsHeaderError long_form_length = Unit {0}
IsHeaderError (bad_length base) = Unit {0}
IsHeaderError _ = ⊥

record FailsPlainly {ℓ} {A : Type ℓ} (r : Result ParseError A) : Type ℓ where
  plain : (e : ParseError) → r ≡ err e → IsHeaderError e

FailsPlainly-ok {ℓ} : {A : Type ℓ} (a : A) → FailsPlainly (ok a)
FailsPlainly-ok a = record { plain = λ e h. cc }

FailsPlainly-err {ℓ} :
    {A : Type ℓ} (e : ParseError) → IsHeaderError e → FailsPlainly {A = A} (err e)
FailsPlainly-err e h = record { plain = λ f p. subst IsHeaderError (err-injective p) h }

FailsPlainly-bind {ℓ κ} :
    {A : Type ℓ} {B : Type κ} (m : Result ParseError A) (f : A → Result ParseError B)
    → FailsPlainly m
    → ((a : A) → FailsPlainly (f a))
    → FailsPlainly (m >>= f)
FailsPlainly-bind (ok a) f h k = k a
FailsPlainly-bind (err e) f h k = FailsPlainly-err e (h.plain e refl)

FailsPlainly-if {ℓ} :
    {A : Type ℓ} (b : Bool) (x y : Result ParseError A)
    → FailsPlainly x
    → FailsPlainly y
    → FailsPlainly (if b then x else y)
FailsPlainly-if true x y h k = h
FailsPlainly-if false x y h k = k

high_number-FailsPlainly :
    (number off : ℕ) (bytes : Bytes) → FailsPlainly (high_number number off bytes)
unfolding high_number
high_number-FailsPlainly number off [] = FailsPlainly-err truncated_tag tt
high_number-FailsPlainly number off (b ∷ bs) =
    FailsPlainly-if (ltb b 0x80) _ _ (FailsPlainly-ok _)
      (high_number-FailsPlainly ((number * 128 + b % 128) % 2 ^ 64) (off + 1) bs)

parse_length-FailsPlainly : (bytes : Bytes) → FailsPlainly (parse_length bytes)
unfolding parse_length parse_long_length
parse_length-FailsPlainly [] = FailsPlainly-err truncated_length tt
parse_length-FailsPlainly (b ∷ bs) = FailsPlainly-if (ltb b 0x80) _ _ (FailsPlainly-ok _) (
    FailsPlainly-if (b % 128 == 0) _ _ (FailsPlainly-err indefinite_length tt) (
      FailsPlainly-if (ltb 4 (b % 128) || ltb (1 + length bs) (1 + b % 128)) _ _
        (FailsPlainly-err long_form_length tt) (FailsPlainly-ok _)))

parse_header-FailsPlainly : (der : Bytes) (base : ℕ) → FailsPlainly (parse_header der base)
unfolding parse_header tag_number finish_header
parse_header-FailsPlainly [] base = FailsPlainly-err truncated tt
parse_header-FailsPlainly (tag ∷ bytes) base =
    FailsPlainly-bind (tag_number tag bytes) _
      (FailsPlainly-if (tag % 32 == 0x1f) _ _ (high_number-FailsPlainly 0 1 bytes)
        (FailsPlainly-ok _))
      (λ (number, off, rest).
        FailsPlainly-bind (parse_length rest) _ (parse_length-FailsPlainly rest) (λ (size, used).
          FailsPlainly-if (ltb (length (drop used rest)) size) _ _
            (FailsPlainly-err (bad_length base) tt) (FailsPlainly-ok _)))

pub parse_header-IsHeaderError :
    (der : Bytes) (base : ℕ) (e : ParseError) → parse_header der base ≡ err e → IsHeaderError e
parse_header-IsHeaderError der base = (parse_header-FailsPlainly der base).plain
