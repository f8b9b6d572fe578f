-- ===== src/Git/Hooks.antt =====
-- What the Git providers share: providers/providerapi/git.go, and the parts of Go's library
-- that they call.
use ramify.Prelude.{str_eq, none, some, String, Bool, false, Option, [], if◌then◌else◌}
use ramify.Errors.{Err, sentinel, wrap, unhandled_webhook_event, invalid_webhook_signature}
use ramify.Provider.{Result, ok, err, GitEvent}

-- hex.DecodeString, HMAC-SHA256 of a secret and a payload, and strings.ToUpper. Bytes are texts.
pub record Codecs : Type 0 where
  pub decode_hex : String → Option String
  pub hmac_sha256 : String → String → String
  pub to_upper : String → String

abbrev pub branch_ref_prefix : String
branch_ref_prefix = "refs/heads/"

unfoldable pub unhandled : String → Err
unhandled text = wrap text (sentinel unhandled_webhook_event)

unfoldable pub invalid_signature : String → Err
invalid_signature text = wrap text (sentinel invalid_webhook_signature)

-- hmac.Equal of the decoded signature and a digest
unfoldable pub digest_matches : Option String → String → Bool
digest_matches none got = false
digest_matches (some want) got = str_eq want got

-- `if !verified { return ErrInvalidSignature }`
unfoldable pub once_verified : Bool → Err → Result GitEvent → Result GitEvent
once_verified verified invalid parsed = if verified then parsed else err invalid

abbrev pub no_event : GitEvent
no_event = record {
  kind = "";
  project = "";
  branch = "";
  pr_number = 0;
  artifact = "";
  labels = [];
  labels_known = false;
}

unfoldable pub decoded : {A : Type 0} → String → Result A → (A → Result GitEvent) → Result GitEvent
decoded text (ok a) parse = parse a
decoded text (err e) parse = err (wrap text e)
