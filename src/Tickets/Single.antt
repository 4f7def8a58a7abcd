-- ===== src/Tickets/Single.antt =====
-- How often a ticket of services/event_service.py is redeemed.
use text.Mathlib.TextPositions.{eq_refl}
use agri_flow.Prelude.{
  Bool, ℕ, ◌+◌, ◌≤◌, ◌≡◌, refl, inl, inr, arith, String, true, false, Option, none, some, [], ◌∷◌,
  ltb, Bool-cases, if◌then◌else◌,
}
use agri_flow.Tickets.{
  Tickets, Race, Redeemer, live, looked_up, redeemed, issue_ticket, advance, redeem_ticket, race,
}

spent : (now expiry later : ℕ) → ltb now expiry ≡ false → now ≤ later → ltb later expiry ≡ false
spent now expiry later h le = ground arith

-- A ticket that has been issued is redeemed to its user in the thirty seconds after, and to nobody
-- later; a second redemption that follows the first one is refused, at any later time.
pub redeem_ticket-issued :
    (user_id issued now later : ℕ) (ticket : String) (tickets : Tickets)
    → now ≤ later
    → let first = redeem_ticket now ticket (issue_ticket user_id ticket issued tickets) in
      (first.0 ≡ (if ltb now (issued + 30) then some user_id else none))
      × ((redeem_ticket later ticket first.1).0 ≡ none)
unfolding redeem_ticket issue_ticket
redeem_ticket-issued user_id issued now later ticket tickets le =
    elim (Bool-cases (ltb now (issued + 30))) [
      | inl fresh ↦ rw (eq_refl ticket, fresh, eq_refl ticket) (refl, refl)
      | inr stale ↦
          rw (eq_refl ticket, stale, eq_refl ticket, spent now (issued + 30) later stale le)
            (refl, refl)
    ]

finish :
    (now : ℕ) (ticket : String) (tickets : Tickets) (u : Option ℕ)
    → let done = advance now ticket (looked_up u) tickets in
      let whole = redeemed ticket tickets u in
      (done.0 ≡ Redeemer.ended whole.0) × (done.1 ≡ whole.1)
unfolding advance
finish now ticket tickets none = (refl, refl)
finish now ticket tickets (some u) = (refl, refl)

race-alone :
    (now : ℕ) (ticket : String) (tickets : Tickets)
    → let alone =
        race now ticket
          (true ∷ true ∷ [])
          (record { first = Redeemer.started; second = Redeemer.started; tickets = tickets }) in
      let whole = redeem_ticket now ticket tickets in
      (alone.first ≡ Redeemer.ended whole.0) × (alone.tickets ≡ whole.1)
unfolding race advance redeem_ticket
race-alone now ticket tickets = finish now ticket tickets (live now (tickets ticket))

abbrev answered : Redeemer → Bool
answered (Redeemer.ended (some u)) = true
answered _ = false

-- not begun, or refused
abbrev empty_handed : Redeemer → Bool
empty_handed Redeemer.started = true
empty_handed (Redeemer.ended none) = true
empty_handed _ = false

-- both not begun
abbrev pub at_start : Tickets → Race
at_start tickets = record { first = Redeemer.started; second = Redeemer.started; tickets = tickets }
