-- ===== src/Users.antt =====
-- Users: models/user_model.py, the searches of infrastructure/repositories/user_repository.py and
-- usecases/user_usecases.py. A user's credentials, pin and profile, each of which is at most one, stand in the user's
-- row; the wallet and the biometrics are left out.
pub mod World
pub mod Accounts
pub mod Register
pub mod Password
mod Tests
