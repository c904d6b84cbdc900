-- ===== src/Security/Envelope/Replays.antt =====
-- An envelope of src/security-authority/protocol/envelope.mjs is accepted once.
use betting_automation_contr.Prelude.{
  ℕ, ◌+◌, ◌≤◌, ◌<◌, Bool, true, false, Bool-cases, Option, none, some, [], ◌∷◌, String, ◌≡◌, ◌≢◌,
  ◌⊎◌, inl, inr, refl, arith, ltb, eq_iff,
}
use betting_automation_contr.Prelude.Dict.{Dict, get, get-set}
use betting_automation_contr.Security.Envelope.Validator.{
  Envelope, Keys, Nonce, named, valued, nested, Nonces, with_texts, unexpired, cleanup_nonces,
  consume_over, consume, finish, is_well_formed, validate_envelope,
}

-- The nonce `k` is held until `x` at least, or that time has come.
abbrev pub IsHeld : String → ℕ → ℕ → Dict ℕ → Type 0
IsHeld k x now m = ((y : ℕ) × (get k m ≡ some y) × (x ≤ y)) ⊎ (x ≤ now)

get-unexpired :
    (k : String) (y now : ℕ) (m : Dict ℕ)
    → get k m ≡ some y
    → now < y
    → get k (unexpired now m) ≡ some y
unfolding get unexpired
get-unexpired k y now [] h lt = cc
get-unexpired k y now ((j, e) ∷ m) h lt = ground (arith, get-unexpired k y now m)

get-cleanup_nonces :
    (k : String) (y now : ℕ) (m : Nonces)
    → get k m.texts ≡ some y
    → now < y
    → get k (cleanup_nonces now m).texts ≡ some y
unfolding cleanup_nonces
get-cleanup_nonces k y now m h lt = ground (arith, get-unexpired k y now m.texts h lt)

consume_over-get :
    (now : ℕ) (j k : String) (y : ℕ) (m : Dict ℕ)
    → get k m ≡ some y
    → now < y
    → get k (consume_over now j m (get j m)).0 ≡ some y
consume_over-get now j k y m h lt = ground (arith, get-set j k (now + 300_000) m, eq_iff j k, h)

consume-get :
    (now : ℕ) (nonce : Option Nonce) (k : String) (y : ℕ) (m : Nonces)
    → get k m.texts ≡ some y
    → now < y
    → get k (consume now nonce m).0.texts ≡ some y
unfolding consume
consume-get now none k y m h lt = h
consume-get now (some (named j)) k y m h lt = ground (
  arith,
  h,
  consume_over-get now j k y (cleanup_nonces now m).texts (get-cleanup_nonces k y now m h lt) lt,
)
consume-get now (some (valued j)) k y m h lt = get-cleanup_nonces k y now m h lt
consume-get now (some nested) k y m h lt = get-cleanup_nonces k y now m h lt

consume_over-new :
    (now : ℕ) (k : String) (m n : Dict ℕ) (g : Option ℕ)
    → consume_over now k m g ≡ (n, true)
    → get k n ≡ some (now + 300_000)
consume_over-new now k m n g h = ground (arith, get-set k k (now + 300_000) m, eq_iff k k, h)

consume_over-known :
    (now : ℕ) (k : String) (m : Dict ℕ) (y : ℕ)
    → now < y
    → (consume_over now k m (some y)).1 ≡ false
consume_over-known now k m y lt = ground arith

consume-named :
    (now : ℕ) (k : String) (m : Nonces)
    → k ≢ ""
    → let clean = cleanup_nonces now m in
      consume now (some (named k)) m
      ≡ with_texts clean (consume_over now k clean.texts (get k clean.texts))
unfolding consume
consume-named now k m ne = ground (arith, eq_iff k "")

IsHeld-later :
    (k : String) (x t later : ℕ) (m : Dict ℕ) → t ≤ later → IsHeld k x t m → IsHeld k x later m
IsHeld-later k x t later m le (inl held) = inl held
IsHeld-later k x t later m le (inr past) = inr (omega arith)

with_texts-true :
    (m n : Nonces) (x : Dict ℕ × Bool) → with_texts m x ≡ (n, true) → x ≡ (n.texts, true)
with_texts-true m n (d, ok) h = ground (arith, h)

consumed :
    (now : ℕ) (k : String) (m n : Nonces)
    → k ≢ ""
    → consume now (some (named k)) m ≡ (n, true)
    → get k n.texts ≡ some (now + 300_000)
consumed now k m n ne h =
    let clean = cleanup_nonces now m in
    consume_over-new now k clean.texts n.texts (get k clean.texts) (
      with_texts-true clean n (consume_over now k clean.texts (get k clean.texts))
        (rw (consume-named now k m ne) at h))

module _ {Payload : Type 0} where
  pub timely :
      (now ts : ℕ) (e : Envelope Payload)
      → e.timestamp ≡ some ts
      → is_well_formed now e ≡ true
      → (ts ≤ now + 60_000) × (now ≤ ts + 60_000)
  timely now ts e at_ h = ground (arith, at_, h)

module _ {Payload : Type 0} (verify : String → Envelope Payload → String → Bool) where
  nonces-finish :
      (keys : Keys) (e : Envelope Payload) (x : Nonces × Bool) → (finish verify keys e x).0 ≡ x.0
  nonces-finish keys e (m, true) = refl
  nonces-finish keys e (m, false) = refl

  validate_envelope-get :
      (keys : Keys) (now : ℕ) (e : Envelope Payload) (k : String) (y : ℕ) (m : Nonces)
      → get k m.texts ≡ some y
      → now < y
      → get k (validate_envelope verify keys now e m).0.texts ≡ some y
  unfolding validate_envelope
  validate_envelope-get keys now e k y m h lt =
      ground
        (arith, h, nonces-finish keys e (consume now e.nonce m), consume-get now e.nonce k y m h lt)

  validate_envelope-IsHeld :
      (keys : Keys) (t now : ℕ) (e : Envelope Payload) (k : String) (x : ℕ) (m : Nonces)
      → t ≤ now
      → IsHeld k x t m.texts
      → IsHeld k x now (validate_envelope verify keys now e m).0.texts
  validate_envelope-IsHeld keys t now e k x m le (inr past) = inr (omega arith)
  validate_envelope-IsHeld keys t now e k x m le (inl (y, held, far)) =
      elim (Bool-cases (ltb now y)) [
        | inl before ↦
            inl (y, validate_envelope-get keys now e k y m held (ground (arith, before)), far)
        | inr after ↦ inr (ground (arith, after))
      ]

  -- Validations one after another, at times that do not go back.
  pub data Run : ℕ → Nonces → ℕ → Nonces → Type 0 where
    stop : {t : ℕ} {m : Nonces} → Run t m t m
    next :
        {t u : ℕ} {m n : Nonces} (keys : Keys) (now : ℕ) (e : Envelope Payload)
        → t ≤ now
        → Run now (validate_envelope verify keys now e m).0 u n
        → Run t m u n

  Run-IsHeld :
      {t u : ℕ} {m n : Nonces} (k : String) (x : ℕ)
      → Run t m u n
      → IsHeld k x t m.texts
      → IsHeld k x u n.texts
  Run-IsHeld k x stop h = h
  Run-IsHeld k x (next keys now e le run) h =
      Run-IsHeld k x run (validate_envelope-IsHeld keys _ now e k x _ le h)

  finish-true :
      (keys : Keys) (e : Envelope Payload) (x : Nonces × Bool) (n : Nonces)
      → finish verify keys e x ≡ (n, true)
      → x ≡ (n, true)
  finish-true keys e (m, true) n h = ground (arith, h)
  finish-true keys e (m, false) n h = absurd (ground (arith, h))

  finish-false :
      (keys : Keys) (e : Envelope Payload) (x : Nonces × Bool)
      → x.1 ≡ false
      → (finish verify keys e x).1 ≡ false
  finish-false keys e (m, true) h = absurd (ground (arith, h))
  finish-false keys e (m, false) h = refl

  pub accepted :
      (keys : Keys) (now : ℕ) (e : Envelope Payload) (m n : Nonces)
      → validate_envelope verify keys now e m ≡ (n, true)
      → (is_well_formed now e ≡ true) × (consume now e.nonce m ≡ (n, true))
  unfolding validate_envelope
  accepted keys now e m n h = elim (Bool-cases (is_well_formed now e)) [
    | inl formed ↦
        (formed, finish-true keys e (consume now e.nonce m) n (rw (validate_envelope, formed) at h))
    | inr not_formed ↦ absurd (ground (arith, h, not_formed))
  ]

  accepted-IsHeld :
      (keys : Keys) (now ts : ℕ) (e : Envelope Payload) (k : String) (m n : Nonces)
      → e.nonce ≡ some (named k)
      → k ≢ ""
      → e.timestamp ≡ some ts
      → validate_envelope verify keys now e m ≡ (n, true)
      → IsHeld k (now + 300_000) now n.texts × (ts ≤ now + 60_000)
  accepted-IsHeld keys now ts e k m n q ne at_ h =
      let (formed, used) = accepted keys now e m n h in
      let over : consume now (some (named k)) m ≡ (n, true) = rw q at used in
      (inl (now + 300_000, consumed now k m n ne over, omega arith), (timely now ts e at_ formed).0)

  refused_held :
      (keys : Keys) (now y : ℕ) (e : Envelope Payload) (k : String) (m : Nonces)
      → e.nonce ≡ some (named k)
      → k ≢ ""
      → get k m.texts ≡ some y
      → now < y
      → (consume now e.nonce m).1 ≡ false
  refused_held keys now y e k m q ne held lt =
      rw (q, consume-named now k m ne, get-cleanup_nonces k y now m held lt)
        (consume_over-known now k (cleanup_nonces now m).texts y lt)

  refused_in_time :
      (keys : Keys) (now ts x : ℕ) (e : Envelope Payload) (k : String) (m : Nonces)
      → e.nonce ≡ some (named k)
      → k ≢ ""
      → ts + 60_000 < x
      → now ≤ ts + 60_000
      → IsHeld k x now m.texts
      → (consume now e.nonce m).1 ≡ false
  refused_in_time keys now ts x e k m q ne far recent (inl (y, held, le)) =
      refused_held keys now y e k m q ne held (omega arith)
  refused_in_time keys now ts x e k m q ne far recent (inr past) = absurd (omega arith)

  refused :
      (keys : Keys) (now ts x : ℕ) (e : Envelope Payload) (k : String) (m : Nonces)
      → e.nonce ≡ some (named k)
      → k ≢ ""
      → e.timestamp ≡ some ts
      → ts + 60_000 < x
      → IsHeld k x now m.texts
      → (validate_envelope verify keys now e m).1 ≡ false
  unfolding validate_envelope
  refused keys now ts x e k m q ne at_ far h = elim (Bool-cases (is_well_formed now e)) [
    | inr not_formed ↦ rw (validate_envelope, not_formed) refl
    | inl formed ↦
        let (_, recent) = timely now ts e at_ formed in
        rw (validate_envelope, formed)
          (finish-false keys e (consume now e.nonce m)
            (refused_in_time keys now ts x e k m q ne far recent h))
  ]

  -- An envelope whose nonce is a text that is not empty is accepted at most once: after it was
  -- accepted, and any further validations, of whatever envelopes and at times that do not go back,
  -- every envelope with the same text as its nonce and the same time stamp is refused. Nothing is
  -- said of nonces that are no texts, nor of an envelope without a nonce.
  pub envelope_accepted_once :
      (keys other_keys : Keys) (now ts t later : ℕ) (e f : Envelope Payload) (k : String)
      (m n p : Nonces)
      → e.nonce ≡ some (named k)
      → k ≢ ""
      → e.timestamp ≡ some ts
      → validate_envelope verify keys now e m ≡ (n, true)
      → Run now n t p
      → t ≤ later
      → f.nonce ≡ some (named k)
      → f.timestamp ≡ some ts
      → (validate_envelope verify other_keys later f p).1 ≡ false
  envelope_accepted_once keys other_keys now ts t later e f k m n p q ne at_ h run le q2 at2 =
      let (held, recent) = accepted-IsHeld keys now ts e k m n q ne at_ h in
      refused other_keys later ts (now + 300_000) f k p q2 ne at2 (omega arith)
        (IsHeld-later k (now + 300_000) t later p.texts le (Run-IsHeld k (now + 300_000) run held))
