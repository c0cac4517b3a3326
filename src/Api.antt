-- ===== src/Api.antt =====
-- src/policy-server/api: the policies of the external API and of its older version v0, which has a
-- single port, and of the internal API; their validation, and their exchange with the store's
-- policies. The JSON coding is cf-networking-helpers' marshal, a parameter of the mappers.
pub mod V1
pub mod V0
pub mod Internal
pub mod Validation
pub mod RoundTrip
