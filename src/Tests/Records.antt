-- ===== src/Tests/Records.antt =====
-- The theorems on the DNS providers at a zone held in memory.
use ramify.Prelude.{◌≡◌, ◌≢◌, refl, true, false, ◌&&◌, clash, eq_iff, some, inl, inr, List, [], ◌∷◌}
use ramify.Dns.Client.{ZoneRecord, Exists, has_content, is_at}
use ramify.Dns.Cloudflare.{ensure_in, delete_in, owner_content}
use ramify.Dns.Cloudflare.Deletion.{delete_in-gone, delete_in-kept}
use ramify.Dns.Cloudflare.Outcome.{ensure_in-Exists}
use ramify.Dns.Cloudflare.Ownership.{ensure_in-IsForeign, IsForeign}
use ramify.Prelude.Membership.{In}
use ramify.Tests.Zones.{
  memory_zone, memory_zone-IsFaithful, request, deployed, main_record, marker, elsewhere,
  owned_zone, operator_zone, owned_zone-IsKeyed,
}

elsewhere-IsForeign : IsForeign request owned_zone elsewhere
unfolding IsForeign is_at
elsewhere-IsForeign = inl refl

ensure_in-IsForeign_example : In elsewhere (ensure_in memory_zone request owned_zone).1
ensure_in-IsForeign_example =
    ensure_in-IsForeign memory_zone memory_zone-IsFaithful request owned_zone owned_zone-IsKeyed
      elsewhere (inr (inr (inl refl))) elsewhere-IsForeign

ensure_in-Exists_example :
    Exists (ensure_in memory_zone request owned_zone).1 "A" "app.example" "10.0.0.2"
    × Exists
        (ensure_in memory_zone request owned_zone).1
        "TXT"
        "app.example"
        (owner_content request)
unfolding ensure_in ramify.Dns.Cloudflare.ensure_owned ramify.Dns.Client.◌>>=◌
    ramify.Dns.Client.wrapped ramify.Dns.Client.◌>>◌ ramify.Dns.Cloudflare.place ramify.Prelude.keep
    is_at has_content ramify.Dns.Cloudflare.mark ramify.Dns.Client.pure
ensure_in-Exists_example =
    ensure_in-Exists memory_zone memory_zone-IsFaithful request owned_zone owned_zone-IsKeyed refl

not_text : deployed.record_type ≢ "TXT"
not_text e = clash ((eq_iff deployed.record_type "TXT").1 e) refl

delete_in-gone_example :
    In elsewhere owned_zone
    × ((is_at "app.example" "A" elsewhere && has_content "10.0.0.1" elsewhere) ≡ false)
unfolding delete_in ramify.Dns.Client.◌>>=◌ ramify.Dns.Client.wrapped
    ramify.Dns.Cloudflare.delete_owned ramify.Prelude.find_first ramify.Prelude.keep is_at
    has_content owner_content ramify.Dns.Client.◌>>◌ ramify.Dns.Cloudflare.delete_mains
    ramify.Dns.Cloudflare.delete_matching ramify.Dns.Client.pure ramify.Tests.Zones.lacks_id
delete_in-gone_example =
    delete_in-gone memory_zone memory_zone-IsFaithful deployed owned_zone not_text refl elsewhere
      (inl refl)

delete_in-kept_example : In elsewhere (delete_in memory_zone deployed owned_zone).1
unfolding is_at
delete_in-kept_example =
    delete_in-kept memory_zone memory_zone-IsFaithful deployed owned_zone owned_zone-IsKeyed
      elsewhere (inr (inr (inl refl))) refl refl
