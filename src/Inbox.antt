-- ===== src/Inbox.antt =====
-- services/notification_read_service.py: the notifications of a user. The key of a notification is
-- its place in the list.
pub mod Unread
use agri_flow.Prelude.{
  ℕ, zero, suc, ◌+◌, Bool, true, false, not, ◌&&◌, Option, none, some, List, [], ◌∷◌, ◌==◌,
  if◌then◌else◌,
}
use agri_flow.Errors.{Error, Result, ok}
use agri_flow.Exec.{pure, raise_if, ◌>>=◌, ◌>>◌}
use agri_flow.Exec.Pure.{found}
use agri_flow.Models.{Notification, Db}
use agri_flow.Session.{Action, query, write}

-- the row at a place
abbrev pub row_at : ℕ → List Notification → Option Notification
row_at k [] = none
row_at zero (n ∷ ns) = some n
row_at (suc k) (n ∷ ns) = row_at k ns

abbrev pub put_at : ℕ → Notification → List Notification → List Notification
put_at k m [] = []
put_at zero m (n ∷ ns) = m ∷ ns
put_at (suc k) m (n ∷ ns) = n ∷ put_at k m ns

abbrev pub read : Notification → Notification
read n = record n { is_read = true }

abbrev pub set_notifications : List Notification → Db → Db
set_notifications ns d = record d { notifications = ns }

-- another user's notification is not found
unfoldable pub mark_read : ℕ → ℕ → Action Notification
mark_read user_id notification_id = do
  note ← query (λ d. found (row_at notification_id d.notifications) Error.not_found)
  raise_if (not (note.user_id == user_id)) Error.not_found
  write (λ d. set_notifications (put_at notification_id (read note) d.notifications) d)
  pure (read note)

abbrev pub is_unread_of : ℕ → Notification → Bool
is_unread_of user_id n = n.user_id == user_id && not n.is_read

-- `UPDATE ... SET is_read = true WHERE ...`
unfoldable pub read_all : ℕ → List Notification → List Notification
read_all user_id [] = []
read_all user_id (n ∷ ns) = (if is_unread_of user_id n then read n else n) ∷ read_all user_id ns

unfoldable pub unread : ℕ → List Notification → ℕ
unread user_id [] = 0
unread user_id (n ∷ ns) = (if is_unread_of user_id n then 1 else 0) + unread user_id ns

abbrev pub unread_count : ℕ → Db → ℕ
unread_count user_id d = unread user_id d.notifications

-- the answer is the number of rows that the statement changed
unfoldable pub mark_all_read : ℕ → Action ℕ
unfolding unread read_all
mark_all_read user_id = do
  changed ← query (λ d. ok (unread_count user_id d))
  write (λ d. set_notifications (read_all user_id d.notifications) d)
  pure changed
