-- ===== src/Notify.antt =====
-- services/notification_service.py and services/audit_service.py, which nearly every other
-- service calls: notifications with their pushes and events, and the audit log.
use Prim.Native.String.{String}
use text.Mathlib.Text.{starts_with}
use agri_flow.Prelude.{ℕ, Bool, false, ◌||◌, Option, some, List, [], ◌∷◌, ◌++◌, map, if◌then◌else◌}
use agri_flow.Prelude.Table.{keys_where}
use agri_flow.Errors.{ok}
use agri_flow.Enums.{UserRole, same_role, NotificationType}
use agri_flow.Models.{User, Db}
use agri_flow.Session.{Event, Namespace, Action}

-- The reference, where there is one, is a table's name and a key.
abbrev pub notify : ℕ → String → NotificationType → Option String → Option ℕ → Action (Unit {0})
notify user_id title type_ reference_type reference_id s = (
  ok tt,
  record s {
    db = record s.db {
      notifications =
          s.db.notifications
          ++ record {
            user_id = user_id;
            title = title;
            type = type_;
            reference_type = reference_type;
            reference_id = reference_id;
            is_read = false;
          }
            ∷ [];
    };
    pending =
        s.pending
        ++ record {
          user_id = user_id;
          title = title;
          reference_type = reference_type;
          reference_id = reference_id;
        }
          ∷ [];
    published = s.published ++ Event.notification_created user_id title ∷ [];
  },
)

unfoldable pub notify_user : ℕ → String → NotificationType → String → ℕ → Action (Unit {0})
notify_user user_id title type_ reference_type reference_id =
    notify user_id title type_ (some reference_type) (some reference_id)

abbrev pub has_role : List UserRole → User → Bool
has_role [] u = false
has_role (r ∷ rs) u = same_role r u.role || has_role rs u

-- `select(User.id).where(User.role.in_(roles))`
abbrev pub recipients : List UserRole → Db → List ℕ
recipients roles db = keys_where (has_role roles) db.users

unfoldable pub notify_roles :
    List UserRole → String → NotificationType → String → ℕ → Action (Unit {0})
notify_roles roles title type_ reference_type reference_id s = (
  ok tt,
  record s {
    db = record s.db {
      notifications =
          s.db.notifications
          ++ map
              (λ uid. record {
                user_id = uid;
                title = title;
                type = type_;
                reference_type = some reference_type;
                reference_id = some reference_id;
                is_read = false;
              })
              (recipients roles s.db);
    };
    published =
        s.published ++ map (λ uid. Event.notification_created uid title) (recipients roles s.db);
  },
)

-- `action.startswith(PUBLIC_STAT_ACTIONS)`
abbrev pub is_public_stat : String → Bool
is_public_stat action =
    starts_with action "farmer."
    || starts_with action "user.register"
    || starts_with action "crop.register"
    || starts_with action "seed."
    || starts_with action "warehouse.create"
    || starts_with action "market_rate."

abbrev pub stale : String → List Namespace
stale action = Namespace.dashboard ∷ (if is_public_stat action then Namespace.public ∷ [] else [])

-- `audit_service.record`
unfoldable pub audit : Option ℕ → String → Option String → Option ℕ → Action (Unit {0})
audit actor_id action entity_type entity_id s = (
  ok tt,
  record s {
    db = record s.db {
      audit_logs =
          s.db.audit_logs
          ++ record {
            user_id = actor_id;
            action = action;
            entity_type = entity_type;
            entity_id = entity_id;
          }
            ∷ [];
    };
    invalidated = s.invalidated ++ stale action;
    published =
        s.published
        ++ Event.dashboard_changed UserRole.manager action
          ∷ Event.dashboard_changed UserRole.super_admin action
          ∷ [];
  },
)
