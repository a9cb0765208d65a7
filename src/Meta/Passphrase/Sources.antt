-- ===== src/Meta/Passphrase/Sources.antt =====
-- What a passphrase is read from, and what its description gives away.
use tongsuo_go.Base.{
  ℕ, ◌≡◌, refl, sym, ap, ◌∙◌, List, [], ◌∷◌, ◌++◌, Option, none, some, true, false, ◌||◌, ◌==◌,
  Result, ok, err, ok-injective, All, Bool-cases, inl, inr,
}
use tongsuo_go.Base.Dict.{String, string_eq}
use tongsuo_go.Base.Signed.{ℤ}
use tongsuo_go.Base.Text.{trim_space}
use tongsuo_go.Meta.Encoding.{codes}
use tongsuo_go.Meta.Passphrase.{
  Passphrase, PassphraseError, Environment, cut_colon, split_passphrase_spec, keep_line_end,
  trim_passphrase_newline, hidden, read_hidden, from_variable, unless_empty, Scheme, scheme_of,
  pass, variable, file, descriptor, standard_input, unknown, from_descriptor, from_number,
  from_scheme, new_passphrase, atoi,
}

cut_colon-none : (s : String) → All (λ c. (c == 58) ≡ false) s → cut_colon s ≡ none
unfolding cut_colon
cut_colon-none [] h = refl
cut_colon-none (c ∷ s) (hc, hs) = rw (hc, cut_colon-none s hs)

-- The description of a scheme with its argument.
shown : Scheme → String → String
shown pass arg = codes "pass:***"
shown variable arg = codes "env:" ++ arg
shown file arg = codes "file:***"
shown descriptor arg = codes "fd:***"
shown standard_input arg = codes "stdin:***"
shown unknown arg = []

module _ {E : Type 0} where
  -- A specification without a colon is the passphrase itself, whatever it is.
  pub new_passphrase-plain :
      (env : Environment E) (spec : String)
      → All (λ c. (c == 58) ≡ false) spec
      → new_passphrase env spec ≡ ok (record { value = spec; desc = codes "pass:***" })
  unfolding new_passphrase split_passphrase_spec from_scheme scheme_of string_eq
  new_passphrase-plain env spec plain = rw (split_passphrase_spec, cut_colon-none spec plain)

  read_hidden-desc :
      (desc : String) (r : Result E (List ℕ)) (p : Passphrase)
      → read_hidden desc r ≡ ok p
      → p.desc ≡ desc
  unfolding read_hidden hidden
  read_hidden-desc desc (err e) p made = absurd cc
  read_hidden-desc desc (ok bytes) p made =
      sym (ap (λ (x : Passphrase). x.desc) (ok-injective made))

  from_variable-desc :
      (arg : String) (v : Option (List ℕ)) (p : Passphrase)
      → from_variable {E = E} arg v ≡ ok p
      → p.desc ≡ codes "env:" ++ arg
  unfolding from_variable
  from_variable-desc arg none p made = absurd cc
  from_variable-desc arg (some v) p made = sym (ap (λ (x : Passphrase). x.desc) (ok-injective made))

  from_descriptor-desc :
      (fd : ℤ) (read : Option (Result E (List ℕ))) (p : Passphrase)
      → from_descriptor fd read ≡ ok p
      → p.desc ≡ codes "fd:***"
  unfolding from_descriptor
  from_descriptor-desc fd none p made = absurd cc
  from_descriptor-desc fd (some bytes) p made = read_hidden-desc (codes "fd:***") bytes p made

  from_number-desc :
      (env : Environment E) (arg : String) (fd : Option ℤ) (p : Passphrase)
      → from_number env arg fd ≡ ok p
      → p.desc ≡ codes "fd:***"
  unfolding from_number
  from_number-desc env arg none p made = absurd cc
  from_number-desc env arg (some fd) p made = from_descriptor-desc fd (env.descriptor fd) p made

  unless_empty-ok :
      (arg : String) (e : PassphraseError E) (read : Result (PassphraseError E) Passphrase)
      (p : Passphrase)
      → unless_empty arg e read ≡ ok p
      → read ≡ ok p
  unfolding unless_empty
  unless_empty-ok arg e read p made = elim (Bool-cases (string_eq arg [])) [
    | inl blank ↦ absurd (cc (rw blank at made))
    | inr given ↦ rw given at made
  ]

  from_scheme-desc :
      (env : Environment E) (scheme : Scheme) (arg : String) (p : Passphrase)
      → from_scheme env scheme arg ≡ ok p
      → p.desc ≡ shown scheme arg
  unfolding from_scheme shown
  from_scheme-desc env pass arg p made = sym (ap (λ (x : Passphrase). x.desc) (ok-injective made))
  from_scheme-desc env variable arg p made =
      from_variable-desc arg (env.variable arg) p
        (unless_empty-ok arg _ (from_variable arg (env.variable arg)) p made)
  from_scheme-desc env file arg p made =
      read_hidden-desc _ (env.file arg) p
        (unless_empty-ok arg _ (read_hidden (codes "file:***") (env.file arg)) p made)
  from_scheme-desc env descriptor arg p made =
      from_number-desc env arg (atoi (trim_space arg)) p made
  from_scheme-desc env standard_input arg p made = read_hidden-desc _ env.standard_input p made
  from_scheme-desc env unknown arg p made = absurd cc

  -- Two passphrases that are made from the same specification have the same description, whatever
  -- the variables, files, descriptors and the standard input contained when each was made.
  pub new_passphrase-desc :
      (env env' : Environment E) (spec : String) (p p' : Passphrase)
      → new_passphrase env spec ≡ ok p
      → new_passphrase env' spec ≡ ok p'
      → p.desc ≡ p'.desc
  unfolding new_passphrase
  new_passphrase-desc env env' spec p p' made made' =
      let (scheme, arg, has_prefix) = split_passphrase_spec spec in
      elim (Bool-cases (split_passphrase_spec spec).2) [
        | inl prefixed ↦
            from_scheme-desc env (scheme_of scheme) arg p (rw prefixed at made)
            ∙ sym (from_scheme-desc env' (scheme_of scheme) arg p' (rw prefixed at made'))
        | inr whole ↦
            from_scheme-desc env (scheme_of (codes "pass")) spec p (rw whole at made)
            ∙ sym (from_scheme-desc env' (scheme_of (codes "pass")) spec p' (rw whole at made'))
      ]

keep_line_end-lem :
    (c : ℕ) (kept cut : List ℕ)
    → All (λ d. (d == 10 || d == 13) ≡ true) cut
    → (cut' : List ℕ) × (keep_line_end c kept ++ cut' ≡ c ∷ kept ++ cut)
      × All (λ d. (d == 10 || d == 13) ≡ true) cut'
unfolding keep_line_end
keep_line_end-lem c [] cut h = elim (Bool-cases (c == 10 || c == 13)) [
  | inl line_end ↦ (c ∷ cut, rw line_end, (line_end, h))
  | inr other ↦ (cut, rw other, h)
]
keep_line_end-lem c (d ∷ s) cut h = (cut, refl, h)

-- What is cut off a read passphrase are line ends.
pub trim_passphrase_newline-lem :
    (s : List ℕ)
    → (cut : List ℕ) × (trim_passphrase_newline s ++ cut ≡ s)
      × All (λ c. (c == 10 || c == 13) ≡ true) cut
unfolding trim_passphrase_newline
trim_passphrase_newline-lem [] = ([], refl, tt)
trim_passphrase_newline-lem (c ∷ s) =
    let (cut, whole, ends) = trim_passphrase_newline-lem s in
    let (cut', same, ends') = keep_line_end-lem c (trim_passphrase_newline s) cut ends in
    (cut', same ∙ ap (λ t. c ∷ t) whole, ends')
