-- ===== src/Tests.antt =====
-- The theorems at concrete inputs, and runs of the definitions.
mod AdminCases
mod HookCases
mod AccessCases
mod AccountCases
mod OauthCases
mod ClientCases
mod CorsCases
mod FirstUserCases
mod NetCases
mod TokenCases
mod CacheCases
mod LifetimeCases
mod RegistryCases
mod LimitCases
mod PlaceholderCases
mod GatewayCases
