-- ===== src/CertPol/Parse/Ends.antt =====
-- Computations that do not run out of fuel, and the parts of the parser that have no loop.
use tongsuo_go.Base.{
  ℕ, zero, suc, ◌+◌, ◌≤◌, ◌<◌, List, [], ◌∷◌, ◌≡◌, ◌≢◌, refl, arith, Bool, true, false, length,
  if◌then◌else◌, ◌==◌, Result, ok, err, wrap, ◌>>=◌, ok-injective, err-injective, ap, ◌∙◌, ◌*◌,
  ◌||◌, >>=-eq-ok,
}
use tongsuo_go.CertPol.Types.{
  Bytes, DerError, Place, ParseError, reading, stuck, unexpected_tag, trailing_bytes,
  odd_bmp_string, display_text_tag, tag_utf8_string, tag_visible_string, tag_ia5_string,
  tag_bmp_string,
}
use tongsuo_go.CertPol.Tlv.{read}
use tongsuo_go.CertPol.Tlv.RoundTrip.{length-read}
use tongsuo_go.CertPol.DisplayText.{decode_display_text, units, bmp_text}
use tongsuo_go.CertPol.Parse.{expect, expect_end}
use tongsuo_go.CertPol.Parse.Loop.{read_while, read_while_fuel}

-- The computation has not run out of fuel.
pub record Ends {ℓ} {A : Type ℓ} (r : Result ParseError A) : Type ℓ where
  pub ends : r ≢ err stuck

pub Ends-ok {ℓ} : {A : Type ℓ} (a : A) → Ends (ok a)
Ends-ok a = record { ends = λ e. cc }

pub Ends-err {ℓ} : {A : Type ℓ} (e : ParseError) → e ≢ stuck → Ends {A = A} (err e)
Ends-err e h = record { ends = λ p. h (err-injective p) }

pub Ends-bind {ℓ κ} :
    {A : Type ℓ} {B : Type κ} (m : Result ParseError A) (f : A → Result ParseError B)
    → Ends m
    → ((a : A) → m ≡ ok a → Ends (f a))
    → Ends (m >>= f)
Ends-bind (ok a) f h k = k a refl
Ends-bind (err e) f h k = record { ends = λ p. h.ends (cc) }

pub Ends-wrap {ℓ} :
    {A : Type ℓ} (place : Place) (r : Result DerError A) → Ends (wrap (reading place) r)
Ends-wrap place (ok a) = record { ends = λ e. cc }
Ends-wrap place (err e) = record { ends = λ p. cc }

pub Ends-if {ℓ} :
    {A : Type ℓ} (b : Bool) (x y : Result ParseError A)
    → Ends x
    → Ends y
    → Ends (if b then x else y)
Ends-if true x y h k = h
Ends-if false x y h k = k

-- A round that consumes at least one byte.
abbrev pub Shrinks : {S : Type 0} → (S → Bytes → Result ParseError (S × Bytes)) → Type 0
Shrinks {S} step =
    (s s' : S) (bytes rest : Bytes) → step s bytes ≡ ok (s', rest) → length rest < length bytes

module _ {S : Type 0} (step : S → Bytes → Result ParseError (S × Bytes))
    (ends : (s : S) (bytes : Bytes) → Ends (step s bytes)) (shrinks : Shrinks step) where
  pub read_while_fuel-Ends :
      (fuel : ℕ) (s : S) (bytes : Bytes)
      → length bytes ≤ fuel
      → Ends (read_while_fuel step fuel s bytes)
  unfolding read_while_fuel
  read_while_fuel-Ends fuel s [] room = Ends-ok s
  read_while_fuel-Ends zero s (b ∷ bs) room = absurd (omega arith)
  read_while_fuel-Ends (suc fuel) s (b ∷ bs) room =
      Ends-bind (step s (b ∷ bs)) _ (ends s (b ∷ bs)) (λ (s', rest) e.
        read_while_fuel-Ends fuel s' rest (omega (arith, shrinks s s' (b ∷ bs) rest e)))

  pub read_while-Ends : (s : S) (bytes : Bytes) → Ends (read_while step s bytes)
  unfolding read_while
  read_while-Ends s bytes = read_while_fuel-Ends (length bytes) s bytes (omega arith)

pub expect-Ends : (place : Place) (wanted : ℕ) (cursor : Bytes) → Ends (expect place wanted cursor)
unfolding expect
expect-Ends place wanted cursor =
    Ends-bind (wrap (reading place) (read cursor)) _ (Ends-wrap place (read cursor))
      (λ (tag, body, rest) e.
        Ends-if (tag == wanted) _ _ (Ends-ok _) (Ends-err (unexpected_tag place tag) (λ p. cc)))

pub expect_end-Ends : (place : Place) (cursor : Bytes) → Ends (expect_end place cursor)
unfolding expect_end
expect_end-Ends place [] = Ends-ok tt
expect_end-Ends place (b ∷ bs) = Ends-err (trailing_bytes place) (λ p. cc)

pub wrap-read-ok :
    (place : Place) (bytes : Bytes) {t : ℕ × Bytes × Bytes}
    → wrap (reading place) (read bytes) ≡ ok t
    → length t.2 < length bytes
wrap-read-ok place bytes {t} e = inner (read bytes) refl e
  where
    inner :
        (r : Result DerError (ℕ × Bytes × Bytes))
        → read bytes ≡ r
        → wrap (reading place) r ≡ ok t
        → length t.2 < length bytes
    inner (ok u) h k =
        let same : u ≡ t = ok-injective k in
        let bound = length-read bytes (h ∙ ap ok same) in omega arith
    inner (err x) h k = absurd (cc)

pub length-expect :
    (place : Place) (wanted : ℕ) (cursor body rest : Bytes)
    → expect place wanted cursor ≡ ok (body, rest)
    → length rest < length cursor
unfolding expect
length-expect place wanted cursor body rest e =
    let ((tag, b, r), er, t) = >>=-eq-ok (wrap (reading place) (read cursor)) _ e in
    let bound = wrap-read-ok place cursor er in
    let same : r ≡ rest = ground (arith, t) in rw (← same) bound

pub units-Ends : (bytes : Bytes) → Ends (units bytes)
unfolding units
units-Ends [] = Ends-ok []
units-Ends (a ∷ []) = Ends-err odd_bmp_string (λ p. cc)
units-Ends (a ∷ b ∷ bs) = next (units bs) (units-Ends bs)
  where
    next :
        (r : Result ParseError (List ℕ))
        → Ends r
        → Ends (elim r [ ok us ↦ ok ((a * 256 + b) ∷ us) | err e ↦ err e ])
    next (ok us) h = Ends-ok _
    next (err e) h = record { ends = λ p. h.ends (cc) }

pub bmp_text-Ends : (r : Result ParseError (List ℕ)) → Ends r → Ends (bmp_text r)
unfolding bmp_text
bmp_text-Ends (ok us) h = Ends-ok _
bmp_text-Ends (err e) h = record { ends = λ p. h.ends (cc) }

pub decode_display_text-Ends : (tag : ℕ) (bytes : Bytes) → Ends (decode_display_text tag bytes)
unfolding decode_display_text
decode_display_text-Ends tag bytes = Ends-if (tag == tag_utf8_string) _ _ (Ends-ok bytes) (
    Ends-if (tag == tag_visible_string || tag == tag_ia5_string) _ _ (Ends-ok bytes) (
      Ends-if (tag == tag_bmp_string) _ _ (bmp_text-Ends (units bytes) (units-Ends bytes))
        (Ends-err (display_text_tag tag) (λ p. cc))))
