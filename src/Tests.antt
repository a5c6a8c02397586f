-- ===== src/Tests.antt =====
-- The theorems on concrete inputs, and the definitions run on such.
mod OfSni
mod OfQueue
mod OfRules
mod OfProxies
mod OfTables
mod OfHttp
mod OfTproxy
mod OfIpc
mod OfCrypto
mod OfHosts
mod OfInspect
mod OfDns
mod OfServices
