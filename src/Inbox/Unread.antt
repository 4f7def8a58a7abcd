-- ===== src/Inbox/Unread.antt =====
-- What is left unread (services/notification_read_service.py).
use agri_flow.Prelude.{
  ℕ, zero, suc, ◌+◌, ◌≡◌, refl, arith, true, false, some, List, [], ◌∷◌, ◌==◌, if◌then◌else◌,
}
use agri_flow.Errors.{ok, err, Error}
use agri_flow.Models.{Notification}
use agri_flow.Session.{Session}
use agri_flow.Inbox.{
  row_at, put_at, read, is_unread_of, read_all, unread, unread_count, mark_read, mark_all_read,
}

unread-read_all : (u : ℕ) (ns : List Notification) → unread u (read_all u ns) ≡ 0
unfolding unread read_all
unread-read_all u [] = refl
unread-read_all u (n ∷ ns) = ground (arith, unread-read_all u ns)

unread-read_all_other :
    (u v : ℕ) (ns : List Notification) → (v == u) ≡ false → unread v (read_all u ns) ≡ unread v ns
unfolding unread read_all
unread-read_all_other u v [] h = refl
unread-read_all_other u v (n ∷ ns) h = ground (arith, unread-read_all_other u v ns)

-- To mark all as read answers the number of the user's unread notifications, leaves the user none
-- unread, and leaves every other user the same number.
pub mark_all_read_lem :
    (u : ℕ) (s : Session)
    → let done = mark_all_read u s in
      (done.0 ≡ ok (unread_count u s.db))
      × (unread_count u done.1.db ≡ 0)
      × ((v : ℕ) → (v == u) ≡ false → unread_count v done.1.db ≡ unread_count v s.db)
unfolding mark_all_read
mark_all_read_lem u s = (
  refl,
  unread-read_all u s.db.notifications,
  λ v other. unread-read_all_other u v s.db.notifications other,
)

unread-put_at :
    (v k : ℕ) (note : Notification) (ns : List Notification)
    → row_at k ns ≡ some note
    → unread v (put_at k (read note) ns) + (if is_unread_of v note then 1 else 0) ≡ unread v ns
unfolding unread
unread-put_at v k note [] h = cc
unread-put_at v zero note (n ∷ ns) h = ground arith
unread-put_at v (suc k) note (n ∷ ns) h = omega (arith, unread-put_at v k note ns h)

-- Where a user marks an own notification as read, the count of the unread of that user is lower by
-- one if it was unread and the same if it was read, and the count of every other user is the same.
pub mark_read-ok :
    (u k : ℕ) (note : Notification) (s : Session)
    → row_at k s.db.notifications ≡ some note
    → (note.user_id == u) ≡ true
    → (v : ℕ)
    → unread_count v (mark_read u k s).1.db + (if is_unread_of v note then 1 else 0)
      ≡ unread_count v s.db
unfolding mark_read
mark_read-ok u k note s row mine v = rw (row, mine) (unread-put_at v k note s.db.notifications row)

pub mark_read-not_own :
    (u k : ℕ) (note : Notification) (s : Session)
    → row_at k s.db.notifications ≡ some note
    → (note.user_id == u) ≡ false
    → mark_read u k s ≡ (err Error.not_found, s)
unfolding mark_read
mark_read-not_own u k note s row other = rw (row, other) refl
