-- ===== src/Provider.antt =====
-- The interfaces that the core is written against, and their data (providers/providerapi).
-- A provider may answer each call differently: it is given the number of the call.
use ramify.Prelude.{ℕ, String, Bool, Option, List}
use ramify.Errors.{Err}

pub data Result (A : Type 0) : Type 0 where
  ok : A → Result A
  err : Err → Result A

-- A normalized webhook event.
pub record GitEvent : Type 0 where
  pub kind : String
  pub project : String
  pub branch : String
  pub pr_number : ℕ
  pub artifact : String
  pub labels : List String
  pub labels_known : Bool

pub record EnvSpec : Type 0 where
  pub project : String
  pub branch : String
  pub subdomain : String
  pub artifact_ref : String
  pub previous_ref : String

pub record Deployment : Type 0 where
  pub ref : String
  pub internal_addr : String

pub record Health : Type 0 where
  pub healthy : Bool
  pub detail : String

pub record DnsRecord : Type 0 where
  pub zone : String
  pub name : String
  pub record_type : String
  pub value : String
  pub ownership_tag : String

pub record CertRef : Type 0 where
  pub domain : String
  pub expires_at : String
  pub certificate_pem : String
  pub private_key_pem : String

-- `detail` is the error whose text the source's field holds.
pub record NotifyEvent : Type 0 where
  pub kind : String
  pub url : String
  pub detail : Option Err

-- The two optional capabilities are type assertions in the source: `none` where the provider has
-- no such method.
pub record DeployProvider : Type 0 where
  pub apply : ℕ → EnvSpec → Result Deployment
  pub sleep : ℕ → String → Result (Unit {0})
  pub wake : ℕ → String → Result (Unit {0})
  pub destroy : ℕ → String → Result (Unit {0})
  pub health_check : ℕ → String → Result Health
  pub install_certificate : Option (ℕ → String → CertRef → Result (Unit {0}))
  pub remove_certificate : Option (ℕ → String → Result (Unit {0}))

pub record DnsProvider : Type 0 where
  pub ensure_record : ℕ → DnsRecord → Result (Unit {0})
  pub delete_record : ℕ → DnsRecord → Result (Unit {0})

pub record CertificateProvider : Type 0 where
  pub ensure_certificate : ℕ → String → Result CertRef
  pub revoke_certificate : ℕ → String → Result (Unit {0})

pub record NotifierProvider : Type 0 where
  pub notify : ℕ → String → ℕ → NotifyEvent → Result (Unit {0})
