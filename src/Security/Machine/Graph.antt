-- ===== src/Security/Machine/Graph.antt =====
-- What the transition table of src/security-authority/state-machine/transitions.mjs allows.
use betting_automation_contr.Prelude.{
  true, Bool-cases, Option-cases, Option, none, some, ◌≡◌, ◌⊎◌, inl, inr, arith, if◌then◌else◌,
  List, [], ◌∷◌, All,
}
use mathlib.Core.Bool.{decide_iff}
use betting_automation_contr.Security.State.{
  SecurityState, SecurityState-discrete, operational, authenticated, renewing, offline_grace,
  initializing, revoked, compromised, tamper_suspected, logged_out, unauthenticated,
}
use betting_automation_contr.Security.Machine.Table.{
  TransitionEvent, TransitionEvent-discrete, backend_revocation, Payload, TransitionDefinition,
  get_transition, find_transition, transitions, matches,
}

-- The lookup and the guard of `executeTransition`: the next state, if the event is accepted.
unfoldable pub accept : Option TransitionDefinition → Payload → Option SecurityState
accept none p = none
accept (some t) p = if t.guard p then some t.next_state else none

unfoldable pub fire : SecurityState → TransitionEvent → Payload → Option SecurityState
unfolding accept
fire s e p = accept (get_transition s e) p

matches-eq :
    (s : SecurityState) (e : TransitionEvent) (t : TransitionDefinition)
    → matches s e t ≡ true
    → t.current_state ≡ s
matches-eq s e t h = (decide_iff (SecurityState-discrete t.current_state s)).0 (ground arith)

find-All :
    (P : TransitionDefinition → Type 0) (s : SecurityState) (e : TransitionEvent)
    (ts : List TransitionDefinition) (t : TransitionDefinition)
    → All P ts
    → find_transition s e ts ≡ some t
    → P t × (t.current_state ≡ s)
unfolding find_transition
find-All P s e [] t a h = cc
find-All P s e (x ∷ ts) t a h = elim (Bool-cases (matches s e x)) [
  | inl m ↦ let q : x ≡ t = ground arith in rw (← q) (a.0, matches-eq s e x m)
  | inr m ↦ find-All P s e ts t a.1 (ground arith)
]

-- `fire` follows a row: a property of every row holds of the row that it took.
fire-All :
    (P : TransitionDefinition → Type 0) (s : SecurityState) (e : TransitionEvent) (p : Payload)
    (n : SecurityState)
    → All P transitions
    → fire s e p ≡ some n
    → (t : TransitionDefinition) × P t
      × (t.current_state ≡ s)
      × (t.guard p ≡ true)
      × (t.next_state ≡ n)
unfolding fire get_transition
fire-All P s e p n a h = elim (Option-cases (get_transition s e)) [
  | inl missing ↦ absurd (ground arith)
  | inr (t, found) ↦
      let (holds, from) = find-All P s e transitions t a found in
      (t, holds, from, ground arith, ground arith)
]

-- The ways into `operational`, each with the flag that its guard demands.
abbrev pub Confirmed : SecurityState → Payload → Type 0
Confirmed s p =
    ((s ≡ authenticated) × (p.backend_confirmed ≡ true))
    ⊎ (((s ≡ renewing) × (p.response_validated ≡ true))
        ⊎ ((s ≡ offline_grace) × (p.handshake_passed ≡ true)))

abbrev EntersConfirmed : TransitionDefinition → Type 0
EntersConfirmed t =
    (p : Payload) → t.next_state ≡ operational → t.guard p ≡ true → Confirmed t.current_state p

transitions-EntersConfirmed : All EntersConfirmed transitions
unfolding transitions
transitions-EntersConfirmed = ground arith

-- An accepted event leads to `operational` only from `authenticated` with `backend_confirmed`,
-- from `renewing` with `response_validated`, or from `offline_grace` with `handshake_passed`.
pub fire-operational :
    (s : SecurityState) (e : TransitionEvent) (p : Payload)
    → fire s e p ≡ some operational
    → Confirmed s p
fire-operational s e p h =
    let (t, confirmed, from, open_guard, to) =
      fire-All EntersConfirmed s e p operational transitions-EntersConfirmed h in
    rw (← from) (confirmed p to open_guard)

-- The states that hard lockdown leaves to an operator.
abbrev pub IsLocked : SecurityState → Type 0
IsLocked s = (s ≡ revoked) ⊎ ((s ≡ compromised) ⊎ (s ≡ tamper_suspected))

abbrev LeavesUnlocked : TransitionDefinition → Type 0
LeavesUnlocked t = ¬ IsLocked t.current_state

transitions-LeavesUnlocked : All LeavesUnlocked transitions
unfolding transitions
transitions-LeavesUnlocked = ground arith

-- No event, with any payload, is accepted in `revoked`, `compromised` or `tamper_suspected`.
pub fire-IsLocked :
    (s : SecurityState) (e : TransitionEvent) (p : Payload) → IsLocked s → fire s e p ≡ none
fire-IsLocked s e p locked = elim (Option-cases (fire s e p)) [
  | inl nothing ↦ nothing
  | inr (n, fired) ↦
      let (t, unlocked, from, _, _) =
        fire-All LeavesUnlocked s e p n transitions-LeavesUnlocked fired in
      absurd (unlocked (rw from locked))
]

abbrev RevocationRevokes : TransitionDefinition → Type 0
RevocationRevokes t = t.event ≡ backend_revocation → t.next_state ≡ revoked

transitions-RevocationRevokes : All RevocationRevokes transitions
unfolding transitions
transitions-RevocationRevokes = ground arith

matches-event :
    (s : SecurityState) (e : TransitionEvent) (t : TransitionDefinition)
    → matches s e t ≡ true
    → t.event ≡ e
matches-event s e t h = (decide_iff (TransitionEvent-discrete t.event e)).0 (ground arith)

find-event :
    (s : SecurityState) (e : TransitionEvent) (ts : List TransitionDefinition)
    (t : TransitionDefinition)
    → find_transition s e ts ≡ some t
    → t.event ≡ e
unfolding find_transition
find-event s e [] t h = cc
find-event s e (x ∷ ts) t h = elim (Bool-cases (matches s e x)) [
  | inl m ↦ let q : x ≡ t = ground arith in rw (← q) (matches-event s e x m)
  | inr m ↦ find-event s e ts t (ground arith)
]

-- A revocation that the table accepts leads to `revoked`.
pub fire-backend_revocation :
    (s n : SecurityState) (p : Payload) → fire s backend_revocation p ≡ some n → n ≡ revoked
unfolding fire get_transition
fire-backend_revocation s n p h = elim (Option-cases (get_transition s backend_revocation)) [
  | inl missing ↦ absurd (ground arith)
  | inr (t, found) ↦
      let (revokes, _) =
        find-All RevocationRevokes s backend_revocation transitions t transitions-RevocationRevokes
          found in
      let into = revokes (find-event s backend_revocation transitions t found) in
      ground (arith, into)
]

-- What the guards demand of a payload that leads to a state.
abbrev pub Checked : SecurityState → Payload → Type 0
Checked initializing p = p.single_instance_lock_held ≡ true
Checked revoked p = p.nonce_checked ≡ true
Checked authenticated p = p.nonce_validated ≡ true
Checked logged_out p = p.all_steps_completed ≡ true
Checked compromised p = ⊥
Checked unauthenticated p = ⊥
Checked s p = Unit

abbrev EntersChecked : TransitionDefinition → Type 0
EntersChecked t = (p : Payload) → t.guard p ≡ true → Checked t.next_state p

transitions-EntersChecked : All EntersChecked transitions
unfolding transitions
transitions-EntersChecked = ground arith

-- An accepted event leads to `revoked` only with `nonce_checked`, to `authenticated` only with
-- `nonce_validated`, to `initializing` only with the instance lock, to `logged_out` only with all
-- steps completed, and never to `compromised` or `unauthenticated`.
fire-Checked :
    (s : SecurityState) (e : TransitionEvent) (p : Payload) (n : SecurityState)
    → fire s e p ≡ some n
    → Checked n p
fire-Checked s e p n h =
    let (t, checked, _, open_guard, to) =
      fire-All EntersChecked s e p n transitions-EntersChecked h in
    rw (← to) (checked p open_guard)

-- Every row of the table is the row that `getTransition` finds for its state and event, so no
-- row is shadowed by an earlier one.
get_transition-total : All (λ t. get_transition t.current_state t.event ≡ some t) transitions
unfolding get_transition
get_transition-total = ground arith
