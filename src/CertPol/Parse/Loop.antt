-- ===== src/CertPol/Parse/Loop.antt =====
-- `for !c.empty() { … }` over a cursor, with a state that each round may change.
use tongsuo_go.Base.{
  ℕ, zero, suc, ◌+◌, ◌-◌, ◌≤◌, ◌<◌, List, [], ◌∷◌, ◌++◌, length, Result, ok, err, ◌>>=◌, ◌≡◌, refl,
  ap, sym, append_assoc, ◌∙◌, arith, All, foldl, length-append,
}
use tongsuo_go.CertPol.Types.{Bytes, ParseError, stuck}

module _ {ℓ} {S : Type ℓ} (step : S → Bytes → Result ParseError (S × Bytes)) where
  unfoldable pub read_while_fuel : ℕ → S → Bytes → Result ParseError S
  read_while_fuel fuel s [] = ok s
  read_while_fuel zero s (b ∷ bs) = err stuck
  read_while_fuel (suc fuel) s (b ∷ bs) = do
    (s', rest) ← step s (b ∷ bs)
    read_while_fuel fuel s' rest

  -- A round reads an element, of two bytes or more: the number of bytes bounds the rounds.
  unfoldable pub read_while : S → Bytes → Result ParseError S
  read_while s bytes = read_while_fuel (length bytes) s bytes

  -- One round.
  pub read_while_fuel-round :
      (fuel : ℕ) (s s' : S) (b : ℕ) (bs rest : Bytes)
      → step s (b ∷ bs) ≡ ok (s', rest)
      → read_while_fuel (suc fuel) s (b ∷ bs) ≡ read_while_fuel fuel s' rest
  unfolding read_while_fuel
  read_while_fuel-round fuel s s' b bs rest h = rw h

-- What a list of values is written as.
unfoldable pub encode_all {ℓ} : {X : Type ℓ} → (X → Bytes) → List X → Bytes
encode_all enc [] = []
encode_all enc (x ∷ xs) = enc x ++ encode_all enc xs

pub encode_all-append {ℓ} :
    {X : Type ℓ} (enc : X → Bytes) (xs ys : List X)
    → encode_all enc (xs ++ ys) ≡ encode_all enc xs ++ encode_all enc ys
unfolding encode_all
encode_all-append enc [] ys = refl
encode_all-append enc (x ∷ xs) ys =
    ap (λ t. enc x ++ t) (encode_all-append enc xs ys)
    ∙ sym (append_assoc (enc x) (encode_all enc xs) (encode_all enc ys))

pub All-encode_all {ℓ κ} :
    {X : Type ℓ} (Q : X → Type κ) (enc : X → Bytes) (bound : ℕ) (xs : List X)
    → All Q xs
    → length (encode_all enc xs) < bound
    → All (λ x. Q x × (length (enc x) < bound)) xs
unfolding encode_all
All-encode_all Q enc bound [] h fits = tt
All-encode_all Q enc bound (x ∷ xs) (hx, hs) fits =
    let total = length-append (enc x) (encode_all enc xs) in
    ((hx, omega arith), All-encode_all Q enc bound xs hs (omega arith))

-- If a round undoes `enc` on the values of `P`, the loop undoes `encode_all enc` on lists of them.
module _ {ℓ κ μ} {S : Type ℓ} {X : Type κ} (P : X → Type μ)
    (step : S → Bytes → Result ParseError (S × Bytes)) (enc : X → Bytes) (update : S → X → S)
    (nonempty : (x : X) → (b : ℕ) × (bs : Bytes) × (enc x ≡ b ∷ bs))
    (reads : (s : S) (x : X) (rest : Bytes)
      → P x
      → step s (enc x ++ rest) ≡ ok (update s x, rest)) where
  read_while_fuel-encode_all :
      (xs : List X) (fuel : ℕ) (s : S)
      → All P xs
      → length (encode_all enc xs) ≤ fuel
      → read_while_fuel step fuel s (encode_all enc xs) ≡ ok (foldl update s xs)
  unfolding encode_all
  read_while_fuel-encode_all [] fuel s h room = unfold read_while_fuel in refl
  read_while_fuel-encode_all (x ∷ xs) fuel s (hx, hs) room =
      let (b, bs, e) = nonempty x in
      let round : step s (b ∷ (bs ++ encode_all enc xs)) ≡ ok (update s x, encode_all enc xs) =
        rw e at (reads s x (encode_all enc xs) hx) in
      let size : length (encode_all enc (x ∷ xs)) ≡ suc (length bs + length (encode_all enc xs)) =
        rw (e, length-append) (omega arith) in
      let positive : fuel ≡ suc (fuel - 1) = omega arith in
      rw (e, positive)
        (read_while_fuel-round step (fuel - 1) s (update s x) b (bs ++ encode_all enc xs)
            (encode_all enc xs) round
          ∙ read_while_fuel-encode_all xs (fuel - 1) (update s x) hs (omega arith))

  pub read_while-encode_all :
      (xs : List X) (s : S)
      → All P xs
      → read_while step s (encode_all enc xs) ≡ ok (foldl update s xs)
  unfolding read_while
  read_while-encode_all xs s h =
      read_while_fuel-encode_all xs (length (encode_all enc xs)) s h (omega arith)
