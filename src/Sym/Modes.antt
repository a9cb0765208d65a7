-- ===== src/Sym/Modes.antt =====
-- The paddings that a mode allows: `paddingsForMode` of sym/padding.go, `checkPadding`, `Supports` and
-- `Paddings` of sym/sym.go. The table of the algorithms is a parameter that gives the mode of a name.
use tongsuo_go.Base.{
  ◌≡◌, refl, inl, inr, List, [], ◌∷◌, Bool, true, false, Bool-cases, ◌==◌, if◌then◌else◌, length,
  Result, ok, err,
}
use tongsuo_go.Base.Dict.{String, string_eq}
use tongsuo_go.Sym.Padding.{codes, padding_pkcs7, padding_zero, padding_none, is_known}

pub data CheckError : Type 0 where
  unsupported_name : String → String → CheckError
  unsupported_for_mode : String → String → String → CheckError

unfoldable pub contains : List String → String → Bool
contains [] pad = false
contains (p ∷ ps) pad = let rest = contains ps pad in if string_eq p pad then true else rest

abbrev pub block_modes : List String
block_modes = codes "ECB" ∷ codes "CBC" ∷ []

abbrev pub stream_modes : List String
stream_modes =
    codes "CTR"
    ∷ codes "OFB"
    ∷ codes "CFB"
    ∷ codes "XTS"
    ∷ codes "STREAM"
    ∷ codes "WRAP"
    ∷ codes "WRAP-PAD"
    ∷ codes "CBC-CTS"
    ∷ []

-- nil is the empty list.
unfoldable pub paddings_for_mode : String → List String
paddings_for_mode mode =
    if contains block_modes mode
    then padding_pkcs7 ∷ padding_zero ∷ padding_none ∷ []
    else if contains stream_modes mode
    then padding_none ∷ []
    else []

-- The padding that the empty name stands for.
unfoldable pub default_of : List String → String
default_of [] = padding_none
default_of (p ∷ ps) = if length (p ∷ ps) == 3 then padding_pkcs7 else p

unfoldable pub check_known : String → String → String → Result CheckError String
check_known name mode norm =
    if string_eq norm []
    then ok (default_of (paddings_for_mode mode))
    else if contains (paddings_for_mode mode) norm
    then ok norm
    else err (unsupported_for_mode name norm mode)

unfoldable pub check_padding : String → String → String → Result CheckError String
check_padding name mode pad =
    if is_known pad then check_known name mode pad else err (unsupported_name name pad)

unfoldable pub accepts : String → String → Bool
accepts mode pad =
    if is_known pad
    then (if string_eq pad [] then true else contains (paddings_for_mode mode) pad)
    else false

module _ {E : Type 0} (lookup : String → Result E String) where
  unfoldable pub supports : String → String → Result E Bool
  supports name pad = elim (lookup name) [ err e ↦ err e | ok mode ↦ ok (accepts mode pad) ]

  unfoldable pub paddings : String → Result E (List String)
  paddings name = elim (lookup name) [ err e ↦ err e | ok mode ↦ ok (paddings_for_mode mode) ]

-- The padding that a check gives, or that it gives none.
pub data Checked (mode : String) : Bool → Result CheckError String → Type 0 where
  refused : (e : CheckError) → Checked mode false (err e)
  listed : (q : String) → contains (paddings_for_mode mode) q ≡ true → Checked mode true (ok q)
  none_listed : paddings_for_mode mode ≡ [] → Checked mode true (ok padding_none)

default_of-Checked : (mode : String) → Checked mode true (ok (default_of (paddings_for_mode mode)))
unfolding paddings_for_mode default_of contains string_eq
default_of-Checked mode = elim (Bool-cases (contains block_modes mode)) [
  | inl h ↦ rw (default_of, h) (listed padding_pkcs7 (rw h refl))
  | inr h ↦ elim (Bool-cases (contains stream_modes mode)) [
    | inl k ↦ rw (default_of, h, k) (listed padding_none (rw (h, k) refl))
    | inr k ↦ rw (default_of, h, k) (none_listed (rw (h, k) refl))
  ]
]

accepts-Checked :
    (name mode pad : String) → Checked mode (accepts mode pad) (check_padding name mode pad)
unfolding accepts check_padding check_known
accepts-Checked name mode pad = elim (Bool-cases (is_known pad)) [
  | inr h ↦ rw h (refused (unsupported_name name pad))
  | inl h ↦ elim (Bool-cases (string_eq pad [])) [
    | inl k ↦ rw (h, k) (default_of-Checked mode)
    | inr k ↦ elim (Bool-cases (contains (paddings_for_mode mode) pad)) [
      | inl l ↦ rw (h, k, l) (listed pad l)
      | inr l ↦ rw (h, k, l) (refused (unsupported_for_mode name pad mode))
    ]
  ]
]

-- For a name that the table of algorithms has, supports accepts a padding exactly when
-- check_padding does, paddings returns the paddings of the mode, and the padding that
-- check_padding then gives is one of these, or none when the mode has no padding.
pub supports-Checked :
    {E : Type 0}
    → (lookup : String → Result E String) (name mode pad : String) → lookup name ≡ ok mode
    → (accepted : Bool) × (supports lookup name pad ≡ ok accepted)
      × (paddings lookup name ≡ ok (paddings_for_mode mode))
      × Checked mode accepted (check_padding name mode pad)
unfolding supports paddings
supports-Checked lookup name mode pad found = (
  accepts mode pad,
  rw (supports, found) refl,
  rw (paddings, found) refl,
  accepts-Checked name mode pad,
)
