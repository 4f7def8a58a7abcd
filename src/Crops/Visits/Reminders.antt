-- ===== src/Crops/Visits/Reminders.antt =====
-- The reminders of services/crop_service.py: one for each visit.
use mathlib.Core.List.{append-nil, append_assoc}
use agri_flow.Prelude.{
  sym, ◌∙◌, ℕ, ◌≡◌, refl, inl, inr, true, false, ◌||◌, [], ◌∷◌, List, ◌++◌, length, some,
  Bool-cases, ==_refl,
}
use agri_flow.Prelude.Int.{ℤ}
use agri_flow.Prelude.Table.{Table}
use agri_flow.Errors.{ok}
use agri_flow.Enums.{NotificationType}
use agri_flow.Models.{FarmVisit, Notification}
use agri_flow.Session.{Session}
use agri_flow.Notify.{notify_user, audit}
use agri_flow.Crops.Visits.{
  is_due, is_reminder, already_notified, due_visits, remind, is_any, send_visit_reminders,
}

already_notified-append :
    (k : ℕ) (v : FarmVisit) (ns ms : List Notification)
    → already_notified k v (ns ++ ms) ≡ (already_notified k v ns || already_notified k v ms)
already_notified-append k v [] ms = refl
already_notified-append k v (n ∷ ns) ms = elim (Bool-cases (is_reminder k v n)) [
  | inl h ↦ rw h refl
  | inr h ↦ rw (h, already_notified-append k v ns ms) refl
]

abbrev pub reminder : ℕ → FarmVisit → Notification
reminder k v = record {
  user_id = v.farmer_id;
  title = "Upcoming farm visit";
  type = NotificationType.info;
  reference_type = some "farm_visit";
  reference_id = some k;
  is_read = false;
}

reminder-is_reminder : (k : ℕ) (v : FarmVisit) → is_reminder k v (reminder k v) ≡ true
reminder-is_reminder k v = rw (==_refl k, ==_refl v.farmer_id) refl

abbrev pub reminders : Table FarmVisit → List Notification
reminders [] = []
reminders ((k, v) ∷ t) = reminder k v ∷ reminders t

-- what the loop does to the session
remind-notifications :
    (t : Table FarmVisit) (s : Session)
    → ((remind t s).0 ≡ ok tt)
      × ((remind t s).1.db.notifications ≡ s.db.notifications ++ reminders t)
      × ((remind t s).1.db.farm_visits ≡ s.db.farm_visits)
      × ((remind t s).1.db.crops ≡ s.db.crops)
unfolding remind
remind-notifications [] s = (refl, sym (append-nil s.db.notifications), refl, refl)
remind-notifications ((k, v) ∷ t) s =
    let (done, notes, visits, crops) =
      remind-notifications t
        (notify_user v.farmer_id "Upcoming farm visit" NotificationType.info "farm_visit" k s).1 in
    (done, notes ∙ append_assoc s.db.notifications (reminder k v ∷ []) (reminders t), visits, crops)

-- the visits of the loop have their reminder afterwards
AllNotified : List Notification → Table FarmVisit → Type 0
AllNotified ns [] = Unit
AllNotified ns ((k, v) ∷ t) = (already_notified k v ns ≡ true) × AllNotified ns t

AllNotified-grow :
    (t : Table FarmVisit) (n : Notification) (ns : List Notification)
    → AllNotified ns t
    → AllNotified (n ∷ ns) t
unfolding AllNotified
AllNotified-grow [] n ns h = tt
AllNotified-grow ((k, v) ∷ t) n ns h = (
  (elim (Bool-cases (is_reminder k v n)) [ inl e ↦ rw e refl | inr e ↦ rw (e, h.0) refl ]),
  AllNotified-grow t n ns h.1,
)

reminders-AllNotified : (t : Table FarmVisit) → AllNotified (reminders t) t
unfolding AllNotified
reminders-AllNotified [] = tt
reminders-AllNotified ((k, v) ∷ t) = (
  rw (reminder-is_reminder k v) refl,
  AllNotified-grow t (reminder k v) (reminders t) (reminders-AllNotified t),
)

due_visits-again :
    (today : ℕ) (days_ahead : ℤ) (ns ms : List Notification) (t : Table FarmVisit)
    → AllNotified ms (due_visits today days_ahead ns t)
    → due_visits today days_ahead (ns ++ ms) t ≡ []
unfolding AllNotified due_visits
due_visits-again today days_ahead ns ms [] h = refl
due_visits-again today days_ahead ns ms ((k, v) ∷ t) h =
    elim (Bool-cases (is_due today days_ahead v)) [
      | inr e ↦ let h₁ = rw e at h in rw (e, due_visits-again today days_ahead ns ms t h₁) refl
      | inl due ↦ elim (Bool-cases (already_notified k v ns)) [
        | inl old ↦
            let h₁ = rw (due, old) at h in
            rw
              (
                due,
                already_notified-append k v ns ms,
                old,
                due_visits-again today days_ahead ns ms t h₁,
              )
              refl
        | inr new ↦
            let h₁ = rw (due, new) at h in
            rw
              (
                due,
                already_notified-append k v ns ms,
                new,
                h₁.0,
                due_visits-again today days_ahead ns ms t h₁.1,
              )
              refl
      ]
    ]

-- a run of the reminders
pub send_visit_reminders_lem :
    (today actor_id : ℕ) (days_ahead : ℤ) (s : Session)
    → let visits = due_visits today days_ahead s.db.notifications s.db.farm_visits in
      let done = send_visit_reminders today actor_id days_ahead s in
      (done.0 ≡ ok (length visits))
      × (done.1.db.notifications ≡ s.db.notifications ++ reminders visits)
      × (done.1.db.farm_visits ≡ s.db.farm_visits)
      × (done.1.db.crops ≡ s.db.crops)
unfolding send_visit_reminders audit
send_visit_reminders_lem today actor_id days_ahead s =
    let visits = due_visits today days_ahead s.db.notifications s.db.farm_visits in
    let (done, notes, same, crops) = remind-notifications visits s in
    elim (Bool-cases (is_any visits)) [
      | inl some_due ↦ rw (done, some_due) (refl, notes, same, crops)
      | inr none_due ↦ rw (done, none_due) (refl, notes, same, crops)
    ]

-- A run of the reminders answers the number of scheduled visits that are due and have no reminder,
-- and adds exactly one notification for each of them; a second run for the same day sends none.
pub send_visit_reminders-again :
    (today actor_id other_id : ℕ) (days_ahead : ℤ) (s : Session)
    → let visits = due_visits today days_ahead s.db.notifications s.db.farm_visits in
      let first = send_visit_reminders today actor_id days_ahead s in
      (first.0 ≡ ok (length visits))
      × (first.1.db.notifications ≡ s.db.notifications ++ reminders visits)
      × ((send_visit_reminders today other_id days_ahead first.1).0 ≡ ok 0)
send_visit_reminders-again today actor_id other_id days_ahead s =
    let visits = due_visits today days_ahead s.db.notifications s.db.farm_visits in
    let first = (send_visit_reminders today actor_id days_ahead s).1 in
    let (counted, notes, same, crops) = send_visit_reminders_lem today actor_id days_ahead s in
    let none_left : due_visits today days_ahead first.db.notifications first.db.farm_visits ≡ [] =
      rw (notes, same)
        (due_visits-again today days_ahead s.db.notifications (reminders visits) s.db.farm_visits
          (reminders-AllNotified visits)) in
    (
      counted,
      notes,
      (send_visit_reminders_lem today other_id days_ahead first).0 ∙ rw none_left refl,
    )
