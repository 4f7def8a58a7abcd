-- ===== src/Tickets.antt =====
-- The tickets of services/event_service.py, with which a browser opens the stream of
-- api/v1/events.py. Redis keeps a ticket until its time to live is over.
pub mod Single
use text.Mathlib.Text.{◌==◌ as str_eq}
use agri_flow.Prelude.{
  ℕ, ◌+◌, String, Bool, true, false, not, Option, none, some, List, [], ◌∷◌, ltb, if◌then◌else◌,
}
use agri_flow.Prelude.Table.{lookup}
use agri_flow.Errors.{Error, Result, ok, err}
use agri_flow.Exec.Pure.{◌>>=◌, ◌>>◌, found, guard_not}
use agri_flow.Enums.{UserRole}
use agri_flow.Models.{User, Db}
use agri_flow.Permissions.{is_active}

abbrev pub ticket_ttl_seconds : ℕ
ticket_ttl_seconds = 30

pub record Ticket : Type 0 where
  pub user_id : ℕ
  pub expires_at : ℕ

abbrev pub Tickets : Type 0
Tickets = String → Option Ticket

abbrev pub put : String → Option Ticket → Tickets → Tickets
put key v tickets k = if str_eq key k then v else tickets k

-- the ticket is drawn by uuid4
unfoldable pub issue_ticket : ℕ → String → ℕ → Tickets → Tickets
issue_ticket user_id ticket now tickets =
    put ticket (some (record { user_id = user_id; expires_at = now + ticket_ttl_seconds })) tickets

abbrev pub live : ℕ → Option Ticket → Option ℕ
live now none = none
live now (some t) = if ltb now t.expires_at then some t.user_id else none

-- A redemption asks Redis twice: for the user, and then for the deletion of the key.
pub data Redeemer : Type 0 where
  started : Redeemer
  holding : ℕ → Redeemer
  ended : Option ℕ → Redeemer

abbrev pub looked_up : Option ℕ → Redeemer
looked_up none = Redeemer.ended none
looked_up (some u) = Redeemer.holding u

-- the next command of a redemption
unfoldable pub advance : ℕ → String → Redeemer → Tickets → Redeemer × Tickets
advance now ticket Redeemer.started tickets = (looked_up (live now (tickets ticket)), tickets)
advance now ticket (Redeemer.holding u) tickets = (Redeemer.ended (some u), put ticket none tickets)
advance now ticket (Redeemer.ended r) tickets = (Redeemer.ended r, tickets)

-- a redemption that nothing comes between
abbrev pub redeemed : String → Tickets → Option ℕ → Option ℕ × Tickets
redeemed ticket tickets none = (none, tickets)
redeemed ticket tickets (some u) = (some u, put ticket none tickets)

unfoldable pub redeem_ticket : ℕ → String → Tickets → Option ℕ × Tickets
redeem_ticket now ticket tickets = redeemed ticket tickets (live now (tickets ticket))

abbrev pub subscriber : Option ℕ → Db → Result (ℕ × UserRole)
subscriber user_id d = do
  k ← found user_id Error.unauthorized
  user ← found (lookup k d.users) Error.unauthorized
  guard_not (not (is_active user.status)) Error.unauthorized
  ok (k, user.role)

-- the ticket is spent also where the user is then refused
unfoldable pub resolve_subscriber : ℕ → String → Db → Tickets → Result (ℕ × UserRole) × Tickets
resolve_subscriber now ticket d tickets =
    let (user_id, tickets') = redeem_ticket now ticket tickets in (subscriber user_id d, tickets')

-- Two redemptions of one ticket at one instant; a schedule says whose command is next, `true` for
-- the first.
pub record Race : Type 0 where
  pub first : Redeemer
  pub second : Redeemer
  pub tickets : Tickets

abbrev pub turn : ℕ → String → Bool → Race → Race
turn now ticket true r =
    let (p, t) = advance now ticket r.first r.tickets in
    record { first = p; second = r.second; tickets = t }
turn now ticket false r =
    let (p, t) = advance now ticket r.second r.tickets in
    record { first = r.first; second = p; tickets = t }

unfoldable pub race : ℕ → String → List Bool → Race → Race
race now ticket [] r = r
race now ticket (b ∷ bs) r = race now ticket bs (turn now ticket b r)
