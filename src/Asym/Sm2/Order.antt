-- ===== src/Asym/Sm2/Order.antt =====
-- The two orders of a raw ciphertext hold the same parts.
use tongsuo_go.Base.{
  ℕ, zero, suc, ◌+◌, ◌-◌, ◌≤◌, [], ◌∷◌, ◌++◌, ◌≡◌, refl, ap, sym, subst, ◌∙◌, arith, Bool, true,
  false, Bool-cases, inl, inr, ltb, ltb→ge, ge→ltb, if◌then◌else◌, length, take, drop, length-take,
  length-drop, length-append, take-append, drop-append, Option, ok, >>=-eq-ok, ok-injective,
}
use tongsuo_go.Asym.Sm2.{
  Bytes, Sm2Cipher, prefix_len, sm2_c1_len, point_of, split_body, parse_sm2_raw, build_sm2_raw,
}

take-++-drop : (n : ℕ) (xs : Bytes) → take n xs ++ drop n xs ≡ xs
take-++-drop zero xs = refl
take-++-drop (suc n) [] = refl
take-++-drop (suc n) (x ∷ xs) = ap (λ r. x ∷ r) (take-++-drop n xs)

-- The parts of a ciphertext that fit together.
record IsWhole (expand : Bytes → Option Bytes) (c : Sm2Cipher) : Type 0 where
  c1_len : (body : Bytes) → sm2_c1_len (c.c1 ++ body) ≡ ok (length c.c1)
  hash_len : length c.hash ≡ 32
  point : point_of expand c.c1 ≡ ok (c.x, c.y)

split_body-hash_first :
    (hash c2 : Bytes) → length hash ≡ 32 → split_body true (hash ++ c2) ≡ (hash, c2)
unfolding split_body
split_body-hash_first hash c2 h =
    subst (λ n. ◌≡◌ {A = Bytes × Bytes} (take n (hash ++ c2), drop n (hash ++ c2)) (hash, c2)) h
      (rw (take-append hash c2, drop-append hash c2))

split_body-text_first :
    (hash c2 : Bytes) → length hash ≡ 32 → split_body false (c2 ++ hash) ≡ (hash, c2)
unfolding split_body
split_body-text_first hash c2 h =
    let before : length c2 ≡ length (c2 ++ hash) - 32 = omega (arith, length-append c2 hash) in
    subst (λ n. ◌≡◌ {A = Bytes × Bytes} (drop n (c2 ++ hash), take n (c2 ++ hash)) (hash, c2))
      before (rw (take-append c2 hash, drop-append c2 hash))

length-split_body :
    (hash_first : Bool) (body : Bytes)
    → 32 ≤ length body
    → length (split_body hash_first body).0 ≡ 32
unfolding split_body
length-split_body true body h = length-take 32 body h
length-split_body false body h = omega (arith, length-drop (length body - 32) body)

prefix_len-pos : (prefix n : ℕ) → prefix_len prefix ≡ ok n → 1 ≤ n
unfolding prefix_len
prefix_len-pos prefix n h = ground arith

sm2_c1_len-take :
    (ct : Bytes) (n : ℕ) (body : Bytes)
    → sm2_c1_len ct ≡ ok n
    → n ≤ length ct
    → sm2_c1_len (take n ct ++ body) ≡ ok (length (take n ct))
unfolding sm2_c1_len
sm2_c1_len-take [] n body h fits = cc
sm2_c1_len-take (prefix ∷ ct) zero body h fits = absurd (omega (arith, prefix_len-pos prefix 0 h))
sm2_c1_len-take (prefix ∷ ct) (suc n) body h fits =
    h ∙ ap ok (sym (length-take (suc n) (prefix ∷ ct) fits))

parse-IsWhole :
    (expand : Bytes → Option Bytes) (ct : Bytes) (hash_first : Bool) (c : Sm2Cipher)
    → parse_sm2_raw expand ct hash_first ≡ ok c
    → IsWhole expand c
unfolding parse_sm2_raw
parse-IsWhole expand ct hash_first c done =
    let (n, len, rest) = >>=-eq-ok (sm2_c1_len ct) _ done in
    elim (Bool-cases (ltb (length ct) (n + 32))) [
      | inl short ↦ absurd (cc (rw short at rest))
      | inr room ↦
          let fits = ltb→ge (length ct) (n + 32) room in
          let (point, expanded, made) =
            >>=-eq-ok (point_of expand (take n ct)) _ (rw room at rest) in
          subst (IsWhole expand) (ok-injective made) record {
            c1_len = λ body. sm2_c1_len-take ct n body len (omega arith);
            hash_len = length-split_body hash_first (drop n ct) (omega (arith, length-drop n ct));
            point = expanded;
          }
    ]

parse-parts :
    (expand : Bytes → Option Bytes) (c : Sm2Cipher) (hash_first : Bool) (body : Bytes)
    → IsWhole expand c
    → 32 ≤ length body
    → split_body hash_first body ≡ (c.hash, c.c2)
    → parse_sm2_raw expand (c.c1 ++ body) hash_first ≡ ok c
unfolding parse_sm2_raw
parse-parts expand c hash_first body w room parts =
    let long : ltb (length (c.c1 ++ body)) (length c.c1 + 32) ≡ false =
      ge→ltb _ _ (omega (arith, length-append c.c1 body)) in
    rw (
      parse_sm2_raw,
      w.c1_len body,
      long,
      take-append c.c1 body,
      drop-append c.c1 body,
      w.point,
      parts,
    )

build-parse :
    (expand : Bytes → Option Bytes) (c : Sm2Cipher) (hash_first : Bool)
    → IsWhole expand c
    → parse_sm2_raw expand (build_sm2_raw c hash_first) hash_first ≡ ok c
unfolding build_sm2_raw
build-parse expand c true w =
    parse-parts expand c true (c.hash ++ c.c2) w
      (omega (arith, length-append c.hash c.c2, w.hash_len))
      (split_body-hash_first c.hash c.c2 w.hash_len)
build-parse expand c false w =
    parse-parts expand c false (c.c2 ++ c.hash) w
      (omega (arith, length-append c.c2 c.hash, w.hash_len))
      (split_body-text_first c.hash c.c2 w.hash_len)

-- When parse_sm2_raw reads the parts of a ciphertext in one order of hash and text, build_sm2_raw
-- writes them in either order so that parse_sm2_raw in that order reads the same parts, whatever
-- the expansion of points does.
pub parse_sm2_raw-build_sm2_raw :
    (expand : Bytes → Option Bytes) (ct : Bytes) (from to : Bool) (c : Sm2Cipher)
    → parse_sm2_raw expand ct from ≡ ok c
    → parse_sm2_raw expand (build_sm2_raw c to) to ≡ ok c
parse_sm2_raw-build_sm2_raw expand ct from to c done =
    build-parse expand c to (parse-IsWhole expand ct from c done)

split_body-append :
    (hash_first : Bool) (body : Bytes)
    → (if hash_first
        then (split_body hash_first body).0 ++ (split_body hash_first body).1
        else (split_body hash_first body).1 ++ (split_body hash_first body).0)
      ≡ body
unfolding split_body
split_body-append true body = take-++-drop 32 body
split_body-append false body = take-++-drop (length body - 32) body

-- When parse_sm2_raw reads a ciphertext, build_sm2_raw in the same order writes exactly its bytes
-- again.
pub build_sm2_raw-parse_sm2_raw :
    (expand : Bytes → Option Bytes) (ct : Bytes) (hash_first : Bool) (c : Sm2Cipher)
    → parse_sm2_raw expand ct hash_first ≡ ok c
    → build_sm2_raw c hash_first ≡ ct
unfolding parse_sm2_raw build_sm2_raw
build_sm2_raw-parse_sm2_raw expand ct hash_first c done =
    let (n, len, rest) = >>=-eq-ok (sm2_c1_len ct) _ done in
    elim (Bool-cases (ltb (length ct) (n + 32))) [
      | inl short ↦ absurd (cc (rw short at rest))
      | inr room ↦
          let (point, expanded, made) =
            >>=-eq-ok (point_of expand (take n ct)) _ (rw room at rest) in
          subst (λ d. build_sm2_raw d hash_first ≡ ct) (ok-injective made)
            (ap (λ body. take n ct ++ body) (split_body-append hash_first (drop n ct))
              ∙ take-++-drop n ct)
    ]
