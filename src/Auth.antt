-- ===== src/Auth.antt =====
-- server/auth/auth.go: the token of a request, the login, the client of a request and the check of each
-- call before its handler. The metadata, the cookies, the service accounts and secrets of Kubernetes, MD5 and
-- the reviews of access are parameters.
pub mod Token
pub mod Login
pub mod Client
pub mod Schedule
pub mod Authority
pub mod Interceptor
pub mod Tests
