-- ===== src/Exchange.antt =====
-- auth/server/src/api/token.rs and provider/token_exchange.rs: app tokens in exchange for the tokens
-- of login providers and of trusted issuers.
pub mod Oauth
pub mod Request
pub mod Token
pub mod Providers
pub mod Workloads
pub mod Complete
pub mod TokenLaws
pub mod OauthLaws
pub mod Candidates
pub mod Accepted
pub mod Matched
pub mod Current
pub mod Order
pub mod LetIn
pub mod Whole
pub mod Tests
pub mod IssueTests
pub mod OrderTests
mod WholeTests
