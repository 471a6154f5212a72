-- ===== src/Tests.antt =====
-- Concrete parameters, runs of the components on them, and the theorems at inputs where their
-- hypotheses hold.
mod Samples
mod Chain
mod Dispatcher
mod Watcher
mod RateLimiter
mod Database
mod Codec
mod Confirmer
mod MultiAddrStore
mod Abi
mod Cacher
mod Resolver
mod Validator
mod Requests
mod Updater
mod Mapping
mod Compat
mod BlockState
mod Http
mod Upgrade
mod Startup
