-- ===== src/Gateway/Liveliness/Presence.antt =====
-- What a liveliness sample does to the table of devices.
use codeless_workspace.Base.{
  ℕ, ◌≡◌, refl, ◌∙◌, Bool, Option, none, some, arith, Text, ◌=t◌, length, Lacks, find_row,
  find-update_self, length-update,
}
use codeless_workspace.Proto.Zid.{Zid}
use codeless_workspace.Proto.Zid.Canonical.{IsCanonical}
use codeless_workspace.Proto.Keyexpr.{health, parse_health_keyexpr}
use codeless_workspace.Proto.Keyexpr.RoundTrip.{parse_health-health}
use codeless_workspace.Gateway.Error.{Result, ok, err}
use codeless_workspace.Gateway.Exec.{continue}
use codeless_workspace.Gateway.Schema.{Database, Org, Device}
use codeless_workspace.Gateway.Db.Devices.{upsert_seen, mark_offline, zid_in_org, set_last_seen}
use codeless_workspace.Gateway.Db.Devices.Seen.{seen, upsert_seen_known}
use codeless_workspace.Gateway.Liveliness.{SampleKind, put, delete, apply, handle_sample}

abbrev pub org_of : Database → Text → Option Org
org_of s slug = find_row (λ (o : Org). o.slug =t slug) s.orgs

-- A sample that does not parse, or that names an organisation that the gateway does not have,
-- changes nothing.
pub handle_sample_unknown :
    (ke : Text) (kind : SampleKind) (epoch : ℕ) (s : Database)
    → ((org : Text) (zid : Zid) → parse_health_keyexpr ke ≡ some (org, zid) → org_of s org ≡ none)
    → (handle_sample ke kind epoch s).1 ≡ s
unfolding handle_sample
handle_sample_unknown ke kind epoch s h = go (parse_health_keyexpr ke) refl
  where
    go :
        (o : Option (Text × Zid))
        → parse_health_keyexpr ke ≡ o
        → (handle_sample ke kind epoch s).1 ≡ s
    go none e = rw e refl
    go (some (org, zid)) e = rw (e, h org zid e) refl

module _ (slug : Text) (zid : Zid) (plain : Lacks b'/' slug) (canonical : IsCanonical zid.as_str)
    (s : Database) (o : Org) (known : org_of s slug ≡ some o) where
  handled :
      (kind : SampleKind) (epoch : ℕ)
      → handle_sample (health slug zid) kind epoch s ≡ apply kind o.id zid.as_str epoch s
  unfolding handle_sample
  handled kind epoch = rw (parse_health-health slug zid plain canonical, known) refl

  put_state :
      (epoch : ℕ) → (apply put o.id zid.as_str epoch s).1 ≡ (upsert_seen o.id zid.as_str epoch s).1
  unfolding apply
  put_state epoch = forgets (upsert_seen o.id zid.as_str epoch s)
    where
      forgets : (r : Result (ℕ × Bool) × Database) → (continue r (λ _ s. (ok tt, s))).1 ≡ r.1
      forgets (ok a, s') = refl
      forgets (err e, s') = refl

  -- A sample on the health key of an organisation's slug, which has no slash, and of a canonical
  -- id, of which the organisation has a device: a put stamps the device with the time, a delete
  -- clears the time, and neither adds or removes a device.
  pub handle_sample_known :
      (epoch : ℕ) (d : Device)
      → seen o.id zid.as_str s ≡ some d
      → (seen o.id zid.as_str (handle_sample (health slug zid) put epoch s).1
          ≡ some (record d { last_seen_at = some epoch }))
        × (seen o.id zid.as_str (handle_sample (health slug zid) delete epoch s).1
            ≡ some (record d { last_seen_at = none }))
        × (length (handle_sample (health slug zid) put epoch s).1.devices ≡ length s.devices)
        × (length (handle_sample (health slug zid) delete epoch s).1.devices ≡ length s.devices)
  unfolding apply mark_offline set_last_seen
  handle_sample_known epoch d h =
      let (_, rows, row) = upsert_seen_known o.id zid.as_str epoch s d h in
      (
        rw (handled put epoch, put_state epoch) row,
        rw (handled delete epoch) (
            find-update_self (zid_in_org o.id zid.as_str) (λ e. record e { last_seen_at = none })
              (λ e. refl) s.devices
            ∙ ground (arith, h)),
        rw (handled put epoch, put_state epoch) rows,
        rw (handled delete epoch) (
            length-update (zid_in_org o.id zid.as_str) (λ e. record e { last_seen_at = none })
              s.devices),
      )
