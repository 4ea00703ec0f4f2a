-- ===== src/Client/States.antt =====
-- Which states the thread of src/main.c reports.
use qwnet_library.Client.Session.{
  QwcState, qwc_state_idle, qwc_state_connected, Client, Running, read_both, enter, serve_state,
  serve, handler_round,
}
use qwnet_library.Netqw.{State, uninitialised, sendchallenge, sendconnection, connected, NetQw}
use qwnet_library.Netqw.Api.{get_state}
use qwnet_library.Prelude.{
  ℕ, ◌≡◌, refl, sym, ap, ◌⊎◌, inl, inr, Bool, true, false, Option, none, some, arith,
}
use qwnet_library.Prelude.Action.{Outcome, done, fault, hang, ◌>>=◌, ◌>>◌}

-- The state of the client that an action ends in.
abbrev state_after : QwcState → Outcome (Unit {0} × Client) → QwcState
state_after before (done r) = r.1.state
state_after before fault = before
state_after before hang = before

Outcome-cases : {A : Type 0} (o : Outcome A) → ((a : A) × (o ≡ done a)) ⊎ ((o ≡ fault) ⊎ (o ≡ hang))
Outcome-cases (done a) = inl (a, refl)
Outcome-cases fault = inr (inl refl)
Outcome-cases hang = inr (inr refl)

entered :
    (s : QwcState) (m : Running (Unit {0})) (q q' : Client)
    → (m >> enter s) q ≡ done (tt, q')
    → q'.state ≡ s
entered s m q q' e = elim (Outcome-cases (m q)) [
  | inl (r, ran) ↦ sym (ap (state_after s) (rw (◌>>=◌, ran) at e))
  | inr (inl ran) ↦
      let never : ◌≡◌ {A = Outcome (Unit {0} × Client)} fault (done (tt, q')) =
        rw (◌>>=◌, ran) at e in
      absurd (ground arith)
  | inr (inr ran) ↦
      let never : ◌≡◌ {A = Outcome (Unit {0} × Client)} hang (done (tt, q')) =
        rw (◌>>=◌, ran) at e in
      absurd (ground arith)
]

-- The states that the thread sets.
abbrev pub Reported : QwcState → QwcState → Type 0
Reported before after =
    (after ≡ before) ⊎ ((after ≡ qwc_state_idle) ⊎ (after ≡ qwc_state_connected))

serve_state-state :
    (rounds : ℕ) (s : State) (q q' : Client)
    → serve_state rounds s q ≡ done (tt, q')
    → Reported q.state q'.state
unfolding serve_state
serve_state-state rounds uninitialised q q' e = inl (sym (ap (state_after q.state) e))
serve_state-state rounds sendchallenge q q' e =
    inr (inr (entered qwc_state_connected (read_both rounds) q q' e))
serve_state-state rounds sendconnection q q' e =
    inr (inr (entered qwc_state_connected (read_both rounds) q q' e))
serve_state-state rounds connected q q' e =
    inr (inr (entered qwc_state_connected (read_both rounds) q q' e))

serve-state :
    (rounds : ℕ) (n : Option NetQw) (quit : Bool) (q q' : Client)
    → serve rounds n quit q ≡ done (tt, q')
    → Reported q.state q'.state
unfolding serve
serve-state rounds none quit q q' e = inr (inl (sym (ap (state_after q.state) e)))
serve-state rounds (some m) true q q' e = inr (inl (sym (ap (state_after q.state) e)))
serve-state rounds (some m) false q q' e = serve_state-state rounds (get_state (some m)) q q' e

-- Whichever state its connection is in, a round of QWC_Thread_Handler that returns leaves the client's
-- state as it was or sets it to idle or connected: it never sets it to connecting.
pub handler_round-state :
    (rounds : ℕ) (due : Bool) (q q' : Client)
    → handler_round rounds due q ≡ done (tt, q')
    → Reported q.state q'.state
unfolding handler_round
handler_round-state rounds false q q' e = inl (sym (ap (state_after q.state) e))
handler_round-state rounds true q q' e = serve-state rounds q.connection.netqw q.quit q q' e
