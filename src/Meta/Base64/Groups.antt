-- ===== src/Meta/Base64/Groups.antt =====
-- Texts in groups of three bytes.
use tongsuo_go.Base.{ℕ, ◌≡◌, refl, sym, ap, ◌∙◌, List, [], ◌∷◌, ◌++◌, append-nil}
use tongsuo_go.Meta.Base64.{encode_base64, groups, remainder}

-- The groups of a text that goes on after the groups so far.
pub groups-append : (t p : List ℕ) → groups (t ++ p) ≡ groups t ++ groups (remainder t ++ p)
unfolding groups remainder
groups-append [] p = refl
groups-append (a ∷ []) p = refl
groups-append (a ∷ b ∷ []) p = refl
groups-append (a ∷ b ∷ c ∷ t) p = ap (λ s. a ∷ b ∷ c ∷ s) (groups-append t p)

pub remainder-append : (t p : List ℕ) → remainder (t ++ p) ≡ remainder (remainder t ++ p)
unfolding groups remainder
remainder-append [] p = refl
remainder-append (a ∷ []) p = refl
remainder-append (a ∷ b ∷ []) p = refl
remainder-append (a ∷ b ∷ c ∷ t) p = remainder-append t p

pub encode_base64-groups :
    (t p : List ℕ) → encode_base64 (groups t ++ p) ≡ encode_base64 (groups t) ++ encode_base64 p
unfolding encode_base64 groups
encode_base64-groups [] p = refl
encode_base64-groups (a ∷ []) p = refl
encode_base64-groups (a ∷ b ∷ []) p = refl
encode_base64-groups (a ∷ b ∷ c ∷ t) p = rw (encode_base64-groups t p)

pub groups-remainder : (t : List ℕ) → groups t ++ remainder t ≡ t
unfolding groups remainder
groups-remainder [] = refl
groups-remainder (a ∷ []) = refl
groups-remainder (a ∷ b ∷ []) = refl
groups-remainder (a ∷ b ∷ c ∷ t) = ap (λ s. a ∷ b ∷ c ∷ s) (groups-remainder t)

-- Complete groups are encoded on their own.
pub encode_base64-append :
    (t p : List ℕ) → remainder t ≡ [] → encode_base64 (t ++ p) ≡ encode_base64 t ++ encode_base64 p
encode_base64-append t p complete =
    let same : groups t ≡ t =
      sym (append-nil (groups t)) ∙ ap (λ r. groups t ++ r) (sym complete) ∙ groups-remainder t in
    rw same at (encode_base64-groups t p)
