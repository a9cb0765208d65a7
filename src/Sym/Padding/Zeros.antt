-- ===== src/Sym/Padding/Zeros.antt =====
-- Zero padding, and what a cipher round trip with it gives back.
use native.Mathlib.Nat.{mod-add-mod, mod_self, mod-lt}
use tongsuo_go.Base.{
  ℕ, zero, suc, ◌+◌, ◌-◌, ◌%◌, ◌<◌, [], ◌∷◌, ◌≡◌, refl, ap, sym, ◌∙◌, arith, Bool, true, false,
  Bool-cases, inl, inr, ◌==◌, ==_iff, length, length-append, take, take-append, Result, ok, wrap,
  wrap-eq-ok,
}
use tongsuo_go.Base.Dict.{string_eq}
use tongsuo_go.Sym.Padding.{
  Bytes, cipher_error, padding_zero, zeros, zero_pad, is_known, normalize_padding, default_padding,
  prepare, context, crypt_padded,
}

length-zeros : (n : ℕ) → length (zeros n) ≡ n
unfolding zeros
length-zeros zero = refl
length-zeros (suc n) = ap suc (length-zeros n)

pub record IsPadded (input : Bytes) (block_size : ℕ) (padded : Bytes) : Type 0 where
  pub whole : length padded % block_size ≡ 0
  pub begins : take (length input) padded ≡ input
  pub shortest : length padded < length input + block_size

mod_fill : (n b : ℕ) → 0 < b → (n + (b - n % b)) % b ≡ 0
mod_fill n b pos =
    let filled : n % b + (b - n % b) ≡ b = omega (arith, mod-lt n pos) in
    sym (mod-add-mod n b (b - n % b)) ∙ ap (λ m. m % b) filled ∙ mod_self b

take-length : (xs : Bytes) → take (length xs) xs ≡ xs
take-length [] = refl
take-length (x ∷ xs) = ap (λ r. x ∷ r) (take-length xs)

-- For a positive block size zero_pad returns whole blocks that begin with the input and are less
-- than one block longer.
pub zero_pad-IsPadded :
    (input : Bytes) (block_size : ℕ)
    → 0 < block_size
    → IsPadded input block_size (zero_pad input block_size)
unfolding zero_pad
zero_pad-IsPadded input block_size pos = elim (Bool-cases (length input % block_size == 0)) [
  | inl whole ↦
      rw whole
        record { whole = (==_iff _ _).0 whole; begins = take-length input; shortest = omega arith }
  | inr partial ↦
      let rest_pos : 0 < length input % block_size = ground arith in
      rw partial record {
        whole =
            ap (λ n. n % block_size)
              (length-append input _ ∙ ap (λ k. length input + k) (length-zeros _))
            ∙ mod_fill (length input) block_size pos;
        begins = take-append input _;
        shortest = omega (
          arith,
          length-append input (zeros (block_size - length input % block_size)),
          length-zeros (block_size - length input % block_size),
          rest_pos,
        );
      }
]

module _ {E Ctx : Type 0} (new_ctx : Bool → Result E Ctx) (set_padding : Ctx → Result E Ctx)
    (encrypt_all decrypt_all : Ctx → Bytes → Result E Bytes) where
  -- A call with zero padding, once its context is there.
  crypt_padded-encrypt :
      (input : Bytes) (block_size : ℕ) (ctx : Ctx)
      → context new_ctx set_padding encrypt_all decrypt_all padding_zero true ≡ ok ctx
      → crypt_padded new_ctx set_padding encrypt_all decrypt_all input true padding_zero block_size
        ≡ wrap cipher_error (encrypt_all ctx (zero_pad input block_size))
  unfolding crypt_padded normalize_padding is_known string_eq default_padding prepare
  crypt_padded-encrypt input block_size ctx made = rw made

  crypt_padded-decrypt :
      (input : Bytes) (block_size : ℕ) (ctx : Ctx)
      → context new_ctx set_padding encrypt_all decrypt_all padding_zero false ≡ ok ctx
      → crypt_padded new_ctx set_padding encrypt_all decrypt_all input false padding_zero block_size
        ≡ wrap cipher_error (decrypt_all ctx input)
  unfolding crypt_padded normalize_padding is_known string_eq default_padding prepare
  crypt_padded-decrypt input block_size ctx made = rw made

  -- With a positive block size, contexts for both directions without native padding, and a native
  -- decryption that inverts the native encryption on whole blocks, what crypt_padded encrypts with
  -- zero padding it decrypts to the zero-padded input.
  pub crypt_padded-zero :
      (input output : Bytes) (block_size : ℕ) (encrypting decrypting : Ctx)
      → 0 < block_size
      → context new_ctx set_padding encrypt_all decrypt_all padding_zero true ≡ ok encrypting
      → context new_ctx set_padding encrypt_all decrypt_all padding_zero false ≡ ok decrypting
      → ((blocks out : Bytes)
          → length blocks % block_size ≡ 0
          → encrypt_all encrypting blocks ≡ ok out
          → decrypt_all decrypting out ≡ ok blocks)
      → crypt_padded new_ctx set_padding encrypt_all decrypt_all input true padding_zero block_size
        ≡ ok output
      → crypt_padded new_ctx set_padding encrypt_all decrypt_all output false padding_zero
          block_size
        ≡ ok (zero_pad input block_size)
  crypt_padded-zero input output block_size encrypting decrypting pos enc dec inverts done =
      let padded = zero_pad-IsPadded input block_size pos in
      let written =
        wrap-eq-ok cipher_error (encrypt_all encrypting (zero_pad input block_size))
          (sym (crypt_padded-encrypt input block_size encrypting enc) ∙ done) in
      crypt_padded-decrypt output block_size decrypting dec
      ∙ ap (wrap cipher_error) (inverts (zero_pad input block_size) output padded.whole written)
