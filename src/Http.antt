-- ===== src/Http.antt =====
-- utils/fetchWrapper.ts, utils/apiLogger.ts, and the way the services use them: a service method is
-- a program that sends requests and goes on with the answers.
pub mod Types
pub mod Program
pub mod Wrapper
pub mod History
mod Tests
unfoldable pub use Types.*
pub use Program.*
