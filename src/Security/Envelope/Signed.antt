-- ===== src/Security/Envelope/Signed.antt =====
-- Which signatures `validateEnvelope` of src/security-authority/protocol/envelope.mjs accepts.
use betting_automation_contr.Prelude.{
  ℕ, ◌+◌, ◌≤◌, Bool, true, false, ◌&&◌, Bool-cases, Option-cases, Option, none, some, String, ◌≡◌,
  ◌⊎◌, inl, inr, refl, arith, str_eq,
}
use betting_automation_contr.Security.Envelope.Validator.{
  Envelope, Keys, Nonces, either, consume, is_signed, is_given, check_signature, signature_v2,
  signature_any, Signatures, finish, is_well_formed, validate_envelope,
}
use betting_automation_contr.Security.Envelope.Replays.{timely, accepted}

-- The text is one of the four signatures.
abbrev pub Carries : Signatures → String → Type 0
Carries s t = ((s.one ≡ some t) ⊎ (s.v_one ≡ some t)) ⊎ ((s.two ≡ some t) ⊎ (s.v_two ≡ some t))

either-some : (a b : Option String) (t : String) → either a b ≡ some t → (a ≡ some t) ⊎ (b ≡ some t)
either-some none b t h = inr h
either-some (some s) b t h = elim (Bool-cases (str_eq s "")) [
  | inl e ↦ inr (rw e at h)
  | inr e ↦ inl (rw e at h)
]

v2-Carries : (s : Signatures) (t : String) → signature_v2 s ≡ some t → Carries s t
v2-Carries s t h = inr (either-some s.two s.v_two t h)

any-Carries : (s : Signatures) (t : String) → signature_any s ≡ some t → Carries s t
any-Carries s t h = elim (either-some s.one (either s.v_one (signature_v2 s)) t h) [
  | inl one ↦ inl (inl one)
  | inr rest ↦ elim (either-some s.v_one (signature_v2 s) t rest) [
    | inl v_one ↦ inl (inr v_one)
    | inr two ↦ v2-Carries s t two
  ]
]

module _ {Payload : Type 0} where
  well_formed-version :
      (now : ℕ) (e : Envelope Payload) → is_well_formed now e ≡ true → e.version ≡ some 2
  well_formed-version now e h = elim (Option-cases e.version) [
    | inl missing ↦ absurd (ground (arith, h, missing))
    | inr (v, given) ↦ ground (arith, h, given)
  ]

  well_formed-timely :
      (now : ℕ) (e : Envelope Payload)
      → is_well_formed now e ≡ true
      → (ts : ℕ) × (e.timestamp ≡ some ts) × (ts ≤ now + 60_000) × (now ≤ ts + 60_000)
  well_formed-timely now e h = elim (Option-cases e.timestamp) [
    | inl missing ↦ absurd (ground (arith, h, missing))
    | inr (ts, given) ↦ let (early, late) = timely now ts e given h in (ts, given, early, late)
  ]

module _ {Payload : Type 0} (verify : String → Envelope Payload → String → Bool) where
  finish-signed :
      (keys : Keys) (e : Envelope Payload) (x : Nonces × Bool) (n : Nonces)
      → finish verify keys e x ≡ (n, true)
      → is_signed verify keys e e.signatures ≡ true
  finish-signed keys e (m, true) n h = ground (arith, h)
  finish-signed keys e (m, false) n h = absurd (ground (arith, h))

  check_signature-verify :
      (key s : Option String) (e : Envelope Payload)
      → check_signature verify key e s ≡ true
      → (k : String) × (t : String) × (key ≡ some k) × (s ≡ some t) × (verify k e t ≡ true)
  check_signature-verify none s e h = absurd (ground (arith, h))
  check_signature-verify (some k) none e h = absurd (ground (arith, h))
  check_signature-verify (some k) (some t) e h = (k, t, refl, refl, ground (arith, h))

  -- A pinned key verifies a signature that the envelope carries.
  abbrev pub IsVerified : Keys → Envelope Payload → Option Signatures → Type 0
  IsVerified keys e signatures =
      (s : Signatures) × (k : String) × (t : String) × (signatures ≡ some s)
      × ((keys.pinned_v2 ≡ some k) ⊎ (keys.pinned ≡ some k))
      × Carries s t
      × (verify k e t ≡ true)

  is_signed-pinned :
      (keys : Keys) (e : Envelope Payload) (s : Option Signatures)
      → is_signed verify keys e s ≡ true
      → IsVerified keys e s
  is_signed-pinned keys e none h = absurd (ground (arith, h))
  is_signed-pinned keys e (some s) h =
      elim (Bool-cases (is_given keys.pinned_v2 && is_given (signature_v2 s))) [
        | inl newer ↦
            let (k, t, pinned, taken, good) =
              check_signature-verify keys.pinned_v2 (signature_v2 s) e (rw newer at h) in
            (s, k, t, refl, inl pinned, v2-Carries s t taken, good)
        | inr older ↦ elim (Bool-cases (is_given keys.pinned && is_given (signature_any s))) [
          | inl given ↦
              let (k, t, pinned, taken, good) =
                check_signature-verify keys.pinned (signature_any s) e (rw (older, given) at h) in
              (s, k, t, refl, inr pinned, any-Carries s t taken, good)
          | inr neither ↦ absurd (ground (arith, rw (older, neither) at h))
        ]
      ]

  -- An accepted envelope is of version 2, has a time stamp within a minute of the clock, and
  -- carries under one of the keys '1', 'v1', '2' and 'v2' a signature that a pinned key verifies;
  -- without a pinned key none is accepted.
  pub envelope_accepted-signed :
      (keys : Keys) (now : ℕ) (e : Envelope Payload) (m n : Nonces)
      → validate_envelope verify keys now e m ≡ (n, true)
      → (e.version ≡ some 2)
        × ((ts : ℕ) × (e.timestamp ≡ some ts) × (ts ≤ now + 60_000) × (now ≤ ts + 60_000))
        × IsVerified keys e e.signatures
  unfolding validate_envelope
  envelope_accepted-signed keys now e m n h =
      let (formed, _) = accepted verify keys now e m n h in
      let signed =
        finish-signed keys e (consume now e.nonce m) n (rw (validate_envelope, formed) at h) in
      (
        well_formed-version now e formed,
        well_formed-timely now e formed,
        is_signed-pinned keys e e.signatures signed,
      )
