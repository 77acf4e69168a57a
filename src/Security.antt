-- ===== src/Security.antt =====
-- common/security and middleware/jwt_auth_middleware.py: the tokens of a session, the user behind a
-- request, and what a role allows. The token library, the clock, the source of uuids and the user
-- tables, which are the `app.admin` package's, are parameters.
pub mod Rbac
pub mod Middleware
pub mod Authentication
pub mod Permission
pub mod Renewal
pub mod Sessions
pub mod SingleLogin
pub mod Tokens
pub mod Users
