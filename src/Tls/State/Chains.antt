-- ===== src/Tls/State/Chains.antt =====
-- When a snapshot has a verified chain.
use tongsuo_go.Base.{ℕ, ◌≡◌, refl, ap, ◌∙◌, List, [], ◌∷◌, Bool, true, false, ◌&&◌, if◌then◌else◌}
use tongsuo_go.Tls.State.{
  ConnectionState, RawState, VerificationError, passed, snapshot, negotiated, judged,
  verification_failures, is_nonempty,
}

-- What a snapshot with a verified chain says.
pub record Verified (raw : RawState) (success : Bool) (chain : List (List ℕ)) : Type 0 where
  pub completed : success ≡ true
  pub checked :
      (raw.verify_enabled && raw.verification_performed && is_nonempty raw.peer_certificates) ≡ true
  pub faultless : verification_failures raw ≡ []
  pub verdict : (snapshot raw success).verification ≡ passed
  pub native_chain : raw.verified_chain ≡ chain

both : (a b : Bool) → (a && b) ≡ true → (a ≡ true) × (b ≡ true)
both true true h = (refl, refl)
both true false h = absurd cc
both false b h = absurd cc

-- The branch that has a chain.
with_chain :
    (test : Bool) (x y : ConnectionState) (chain : List (List ℕ))
    → y.verified_chains ≡ []
    → (if test then x else y).verified_chains ≡ chain ∷ []
    → (test ≡ true) × ((if test then x else y) ≡ x) × (x.verified_chains ≡ chain ∷ [])
with_chain true x y chain none_there h = (refl, refl, h)
with_chain false x y chain none_there h = absurd cc

judged-chain :
    (raw : RawState) (success : Bool) (es : List VerificationError) (chain : List (List ℕ))
    → (judged raw success (negotiated raw success) es).verified_chains ≡ chain ∷ []
    → (success ≡ true)
      × (es ≡ [])
      × ((judged raw success (negotiated raw success) es).verification ≡ passed)
      × (raw.verified_chain ≡ chain)
unfolding judged negotiated
judged-chain raw success (e ∷ es) chain h = absurd cc
judged-chain raw success [] chain h =
    let (trusted, same, chains) =
      with_chain (success && is_nonempty raw.verified_chain) _ _ chain refl h in
    (
      (both success (is_nonempty raw.verified_chain) trusted).0,
      refl,
      ap (λ (x : ConnectionState). x.verification) same,
      cc,
    )

-- A snapshot has a verified chain only after a handshake that succeeded, with verification enabled
-- and performed on a peer certificate and without a failure; its verdict is then passed, and the
-- chain is that of the native library.
pub snapshot-Verified :
    (raw : RawState) (success : Bool) (chain : List (List ℕ))
    → (snapshot raw success).verified_chains ≡ chain ∷ []
    → Verified raw success chain
unfolding snapshot negotiated
snapshot-Verified raw success chain h =
    let (checked, same, chains) =
      with_chain
        (raw.verify_enabled && raw.verification_performed && is_nonempty raw.peer_certificates) _ _
        chain refl h in
    let (completed, faultless, verdict, native) =
      judged-chain raw success (verification_failures raw) chain chains in
    record {
      completed = completed;
      checked = checked;
      faultless = faultless;
      verdict = ap (λ (x : ConnectionState). x.verification) same ∙ verdict;
      native_chain = native;
    }
