-- ===== src/Database.antt =====
-- The SQL database as one request sees it: the session of infrastructure/db.py, and the writes of
-- models/base.py behind infrastructure/repositories/base.py.
use looprail_backend.Prelude.{Bool, Option, none, some, if◌then◌else◌}

-- `NotFoundError`, and the error of a flush
pub data DatabaseError : Type 0 where
  not_found not_saved : DatabaseError

-- A request's transaction over tables `T`: what a rollback goes back to, and what the request sees.
pub record Database (T : Type 0) : Type 0 where
  pub saved : T
  pub current : T

module _ {T : Type 0} where
  -- `DatabaseMixin.save`: a flush, which the database accepts or not, and a rollback where it fails
  unfoldable pub save : (T → Bool) → T → Database T → Option DatabaseError × Database T
  save accepts tables db =
      if accepts tables
      then (none, record { saved = db.saved; current = tables })
      else (some not_saved, record { saved = db.saved; current = db.saved })

  -- the end of a request in `get_session`
  unfoldable pub commit : Database T → Database T
  commit db = record { saved = db.current; current = db.current }
