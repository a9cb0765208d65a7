-- ===== src/Asym/Runs.antt =====
-- A ciphertext with an uncompressed point, and the theorems at it.
use tongsuo_go.Base.{ℕ, zero, suc, [], ◌∷◌, ◌++◌, ◌≡◌, refl, true, false, Option, none, ok}
use tongsuo_go.Asym.Sm2.{
  Bytes, Sm2Cipher, prefix_len, sm2_c1_len, coordinates, point_of, split_body, parse_sm2_raw,
  build_sm2_raw,
}
use tongsuo_go.Asym.Sm2.Order.{parse_sm2_raw-build_sm2_raw, build_sm2_raw-parse_sm2_raw}

abbrev repeat : ℕ → ℕ → Bytes
repeat zero b = []
repeat (suc n) b = b ∷ repeat n b

-- No point is expanded.
abbrev no_points : Bytes → Option Bytes
no_points point = none

abbrev parts : Sm2Cipher
parts = record {
  c1 = 4 ∷ (repeat 32 1 ++ repeat 32 2);
  hash = repeat 32 3;
  c2 = 9 ∷ 8 ∷ [];
  x = repeat 32 1;
  y = repeat 32 2;
}

abbrev hash_first_bytes : Bytes
hash_first_bytes = parts.c1 ++ (parts.hash ++ parts.c2)

parse_run : parse_sm2_raw no_points hash_first_bytes true ≡ ok parts
unfolding parse_sm2_raw sm2_c1_len prefix_len point_of coordinates split_body
parse_run = refl

parse_sm2_raw-build_sm2_raw_example :
    parse_sm2_raw no_points (build_sm2_raw parts false) false ≡ ok parts
parse_sm2_raw-build_sm2_raw_example =
    parse_sm2_raw-build_sm2_raw no_points hash_first_bytes true false parts parse_run

build_sm2_raw-parse_sm2_raw_example : build_sm2_raw parts true ≡ hash_first_bytes
build_sm2_raw-parse_sm2_raw_example =
    build_sm2_raw-parse_sm2_raw no_points hash_first_bytes true parts parse_run
