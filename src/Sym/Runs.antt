-- ===== src/Sym/Runs.antt =====
-- A cipher that adds one to every byte, and the theorems at it.
use tongsuo_go.Base.{
  ℕ, suc, ◌-◌, [], ◌∷◌, ◌≡◌, refl, ap, sym, ◌∙◌, arith, Bool, true, false, map, Result, ok,
  ok-injective,
}
use tongsuo_go.Base.Dict.{String, string_eq}
use tongsuo_go.Sym.Padding.{
  Bytes, padding_zero, zeros, zero_pad, is_known, normalize_padding, default_padding, prepare,
  context, crypt_padded,
}
use tongsuo_go.Sym.Modes.{
  paddings_for_mode, check_padding, supports, paddings, Checked, supports-Checked,
}
use tongsuo_go.Sym.Padding.Zeros.{crypt_padded-zero}

abbrev new_ctx : Bool → Result ℕ (Unit {0})
new_ctx enc = ok tt

abbrev set_padding : Unit {0} → Result ℕ (Unit {0})
set_padding ctx = ok tt

abbrev add_one : Unit {0} → Bytes → Result ℕ Bytes
add_one ctx input = ok (map (λ b. suc b) input)

abbrev take_one : Unit {0} → Bytes → Result ℕ Bytes
take_one ctx input = ok (map (λ b. b - 1) input)

map_back : (blocks : Bytes) → map (λ b. b - 1) (map (λ b. suc b) blocks) ≡ blocks
map_back [] = refl
map_back (b ∷ bs) = let back : suc b - 1 ≡ b = omega arith in rw (back, map_back bs)

contexts : (enc : Bool) → context new_ctx set_padding add_one take_one padding_zero enc ≡ ok tt
unfolding context string_eq
contexts enc = refl

encrypt_run :
    crypt_padded new_ctx set_padding add_one take_one (1 ∷ 2 ∷ 3 ∷ []) true padding_zero 4
    ≡ ok (2 ∷ 3 ∷ 4 ∷ 1 ∷ [])
unfolding crypt_padded normalize_padding is_known string_eq default_padding prepare context zero_pad
    zeros
encrypt_run = refl

crypt_padded-zero_example :
    crypt_padded new_ctx set_padding add_one take_one (2 ∷ 3 ∷ 4 ∷ 1 ∷ []) false padding_zero 4
    ≡ ok (zero_pad (1 ∷ 2 ∷ 3 ∷ []) 4)
crypt_padded-zero_example =
    crypt_padded-zero new_ctx set_padding add_one take_one (1 ∷ 2 ∷ 3 ∷ []) (2 ∷ 3 ∷ 4 ∷ 1 ∷ []) 4
      tt tt (omega arith) (contexts true) (contexts false)
      (λ blocks out whole run. ap (take_one tt) (sym (ok-injective run)) ∙ ap ok (map_back blocks))
      encrypt_run

-- Every name has the mode "CBC".
abbrev cbc : String → Result ℕ String
cbc name = ok (67 ∷ 66 ∷ 67 ∷ [])

supports-Checked_example :
    (accepted : Bool) × (supports cbc [] padding_zero ≡ ok accepted)
    × (paddings cbc [] ≡ ok (paddings_for_mode (67 ∷ 66 ∷ 67 ∷ [])))
    × Checked (67 ∷ 66 ∷ 67 ∷ []) accepted (check_padding [] (67 ∷ 66 ∷ 67 ∷ []) padding_zero)
supports-Checked_example = supports-Checked cbc [] (67 ∷ 66 ∷ 67 ∷ []) padding_zero refl
