-- ===== src/Tests/Streams.antt =====
-- Tickets of a stream on the small database.
use agri_flow.Prelude.{◌+◌, ◌≡◌, refl, arith, true, false, none, some, ◌∷◌, [], ltb, if◌then◌else◌}
use agri_flow.Errors.{Error, ok, err}
use agri_flow.Enums.{UserRole}
use agri_flow.Tickets.{
  Tickets, Redeemer, advance, race, issue_ticket, redeem_ticket, resolve_subscriber,
}
use agri_flow.Tickets.Single.{redeem_ticket-issued, at_start}
use agri_flow.Tests.Data.{base}

abbrev no_tickets : Tickets
no_tickets = λ ticket. none

redeem_ticket-issued_example :
    let first = redeem_ticket 12 "t1" (issue_ticket 7 "t1" 10 no_tickets) in
    (first.0 ≡ (if ltb 12 (10 + 30) then some 7 else none))
    × ((redeem_ticket 13 "t1" first.1).0 ≡ none)
redeem_ticket-issued_example = redeem_ticket-issued 7 10 12 13 "t1" no_tickets (omega arith)

abbrev issued : Tickets
issued = λ ticket. some (record { user_id = 7; expires_at = 40 })

-- each gets the ticket before either deletes it
overlapping :
    let r = race 12 "t1" (true ∷ false ∷ true ∷ false ∷ []) (at_start issued) in
    (r.first ≡ Redeemer.ended (some 7)) × (r.second ≡ Redeemer.ended (some 7))
unfolding race advance
overlapping = (refl, refl)

subscribed : (resolve_subscriber 12 "t1" base issued).0 ≡ ok (7, UserRole.farmer)
unfolding resolve_subscriber redeem_ticket
subscribed = refl

unknown_ticket : (resolve_subscriber 12 "t1" base no_tickets).0 ≡ err Error.unauthorized
unfolding resolve_subscriber redeem_ticket
unknown_ticket = refl
