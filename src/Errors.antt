-- ===== src/Errors.antt =====
-- core/exceptions.py: the application's errors, the database's that the services can meet, and
-- the HTTP status that the exception handlers of middleware/error_handler.py answer with.
use agri_flow.Prelude.{ℕ}

-- The first nine are the subclasses of `AppError`. The last four are raised by SQLAlchemy:
-- `IntegrityError`, `MultipleResultsFound`, `NoResultFound`, and `InvalidRequestError`, where a
-- relationship with `lazy="raise"` is read that no query has loaded.
pub data Error : Type 0 where
  validation not_found conflict unauthorized forbidden rate_limited : Error
  invalid_state_transition insufficient_stock capacity_exceeded : Error
  integrity multiple_results no_result not_loaded : Error

pub data Result (A : Type 0) : Type 0 where
  ok : A → Result A
  err : Error → Result A

-- `handle_app_error` takes the class's `status_code`; the handler of all other exceptions, 500
unfoldable pub status_code : Error → ℕ
status_code Error.validation = 422
status_code Error.not_found = 404
status_code Error.conflict = 409
status_code Error.unauthorized = 401
status_code Error.forbidden = 403
status_code Error.rate_limited = 429
status_code Error.invalid_state_transition = 422
status_code Error.insufficient_stock = 409
status_code Error.capacity_exceeded = 409
status_code Error.integrity = 500
status_code Error.multiple_results = 500
status_code Error.no_result = 500
status_code Error.not_loaded = 500
