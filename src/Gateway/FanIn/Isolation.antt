-- ===== src/Gateway/FanIn/Isolation.antt =====
-- Which messages the fan-in stores, and for whom.
use codeless_workspace.Base.{
  ℕ, ◌≡◌, refl, sym, ap, ◌∙◌, true, Option, none, some, ◌==◌, Text, ◌=t◌, =t_refl, =t_sound, ◌>>=?◌,
  Lacks, find_row, find_row_sound, some_inj, ==_iff,
}
use codeless_workspace.Proto.Zid.{Zid}
use codeless_workspace.Proto.Zid.Canonical.{IsCanonical}
use codeless_workspace.Proto.Keyexpr.{MsgKind, event, log, parse_msg_keyexpr, msg_event}
use codeless_workspace.Proto.Keyexpr.RoundTrip.{parse_msg-msg_event}
use codeless_workspace.Proto.Msg.{MsgEnvelope}
use codeless_workspace.Gateway.Json.{Json}
use codeless_workspace.Gateway.Error.{ok, err, GatewayError}
use codeless_workspace.Gateway.Exec.{continue}
use codeless_workspace.Gateway.Exec.Steps.{
  raised-ok, required-ok, raised-Keeps, required-Keeps, settle-Keeps, mapped-Keeps, mapped-ok,
  Keeps,
}
use codeless_workspace.Gateway.Schema.{Database, Org, Device}
use codeless_workspace.Gateway.Db.Messages.{insert_event, insert_log}
use codeless_workspace.Gateway.FanIn.{
  MsgEvent, event_row, log_row, persist, store, handle_sample, same_kind, event_of, log_of,
  log_level_str, log_level,
}

-- The org and the device of a published message.
pub owner_of : {V : Type 0} → MsgEvent V → ℕ × ℕ
owner_of (event_row org r) = (org, r.device_id)
owner_of (log_row org r) = (org, r.device_id)

abbrev pub device_of : Database → Text → Option Device
device_of s zid = find_row (λ (d : Device). d.zid =t zid) s.devices

same_kind_sound : (a b : MsgKind) → same_kind a b ≡ true → a ≡ b
unfolding same_kind
same_kind_sound event event h = refl
same_kind_sound log log h = refl
same_kind_sound event log h = cc
same_kind_sound log event h = cc

-- The message is for the organisation of the device of that id, and that organisation has the slug.
pub record IsOwn {V : Type 0} (s : Database) (slug zid : Text) (m : MsgEvent V) : Type 0 where
  pub device : Device
  pub org : Org
  pub found : device_of s zid ≡ some device
  pub member : org.id ≡ device.org_id
  pub named : org.slug ≡ slug
  pub owned : owner_of m ≡ (device.org_id, device.id)

ids_of :
    (o : Option Device) (p : ℕ × ℕ)
    → (o >>=? λ d. some (d.id, d.org_id)) ≡ some p
    → (d : Device) × (o ≡ some d) × ((d.id, d.org_id) ≡ p)
ids_of none p h = cc
ids_of (some d) p h = (d, refl, some_inj h)

owned :
    {V : Type 0} (s : Database) (slug zid : Text) (m : MsgEvent V) (p : ℕ × ℕ) (org : Org)
    → (device_of s zid >>=? λ d. some (d.id, d.org_id)) ≡ some p
    → find_row (λ (o : Org). o.id == p.1) s.orgs ≡ some org
    → (org.slug =t slug) ≡ true
    → owner_of m ≡ (p.1, p.0)
    → IsOwn s slug zid m
owned s slug zid m p org a b c w =
    let (d, found, ids) = ids_of (device_of s zid) p a in
    record {
      device = d;
      org = org;
      found = found;
      member =
          (==_iff org.id p.1).0 (find_row_sound (λ (o : Org). o.id == p.1) s.orgs org b)
          ∙ sym (ap (λ (q : ℕ × ℕ). q.1) ids);
      named = =t_sound org.slug slug c;
      owned = w ∙ sym (ap (λ (q : ℕ × ℕ). (q.1, q.0)) ids);
    }

module _ (json : Json) {U : Type 0} where
  open json use {Value}

  persist-owner :
      (kind : MsgKind) (d o : ℕ) (topic : Text) (env : MsgEnvelope U Value) (s : Database)
      (m : MsgEvent Value)
      → (persist json kind d o topic env s).0 ≡ ok m
      → owner_of m ≡ (o, d)
  unfolding persist owner_of event_of log_of
  persist-owner event d o topic env s m h =
      let (id, e) =
        mapped-ok (insert_event json d topic env.ts env.content_type env.payload s)
          (event_of json d o topic env) h in
      rw e refl
  persist-owner log d o topic env s m h =
      let (id, e) =
        mapped-ok
          (insert_log json d topic env.ts (log_level_str (log_level env)) env.content_type
            env.payload s)
          (log_of json d o topic (log_level_str (log_level env)) env) h in
      rw e refl

  persist-Keeps :
      (kind : MsgKind) (d o : ℕ) (topic : Text) (env : MsgEnvelope U Value) (s : Database)
      → Keeps s (persist json kind d o topic env s)
  unfolding persist insert_event insert_log
  persist-Keeps event d o topic env s =
      mapped-Keeps (insert_event json d topic env.ts env.content_type env.payload s)
        (event_of json d o topic env) s
        (raised-Keeps (json.to_vec env.payload) _ _ s (λ bytes. settle-Keeps s _))
  persist-Keeps log d o topic env s =
      mapped-Keeps
        (insert_log json d topic env.ts (log_level_str (log_level env)) env.content_type env.payload
          s)
        (log_of json d o topic (log_level_str (log_level env)) env) s
        (raised-Keeps (json.to_vec env.payload) _ _ s (λ bytes. settle-Keeps s _))

  store-IsOwn :
      (slug zid : Text) (kind : MsgKind) (topic : Text) (env : MsgEnvelope U Value) (s : Database)
      (m : MsgEvent Value)
      → (store json slug zid kind topic env s).0 ≡ ok m
      → IsOwn s slug zid m
  unfolding store
  store-IsOwn slug zid kind topic env s m h =
      let ((id, org_id), a, h2) =
        raised-ok (device_of s zid >>=? λ d. some (d.id, d.org_id)) _ _ s h in
      let (org, b, h3) = raised-ok (find_row (λ (o : Org). o.id == org_id) s.orgs) _ _ s h2 in
      let (c, h4) = required-ok (org.slug =t slug) _ _ s h3 in
      owned s slug zid m (id, org_id) org a b c (persist-owner kind id org_id topic env s m h4)

  store-Keeps :
      (slug zid : Text) (kind : MsgKind) (topic : Text) (env : MsgEnvelope U Value) (s : Database)
      → Keeps s (store json slug zid kind topic env s)
  unfolding store
  store-Keeps slug zid kind topic env s =
      raised-Keeps (device_of s zid >>=? λ d. some (d.id, d.org_id)) _ _ s (λ p.
        raised-Keeps (find_row (λ (o : Org). o.id == p.1) s.orgs) _ _ s
          (λ org. required-Keeps (org.slug =t slug) _ _ s (persist-Keeps kind p.0 p.1 topic env s)))

  -- A sample that is accepted has a key that parses, and its message goes to the organisation that
  -- owns the device of that key's id, which is the organisation that the key names.
  pub handle_sample-IsOwn :
      (decode : Text → Option (MsgEnvelope U Value)) (kind : MsgKind) (ke payload : Text)
      (s : Database) (m : MsgEvent Value)
      → (handle_sample json decode kind ke payload s).0 ≡ ok m
      → (slug : Text) × (zid : Zid) × (topic : Text) × (parse_msg_keyexpr ke
          ≡ some (slug, zid, kind, topic))
        × IsOwn s slug zid.as_str m
  unfolding handle_sample
  handle_sample-IsOwn decode kind ke payload s m h =
      let ((slug, zid, k, topic), a, h2) = raised-ok (parse_msg_keyexpr ke) _ _ s h in
      let (b, h3) = required-ok (same_kind k kind) _ _ s h2 in
      let (env, c, h4) = raised-ok (decode payload) _ _ s h3 in
      (
        slug,
        zid,
        topic,
        a ∙ ap (λ k. some (slug, zid, k, topic)) (same_kind_sound k kind b),
        store-IsOwn slug zid.as_str k topic env s m h4,
      )

  -- A sample that is dropped stores nothing.
  pub handle_sample-err :
      (decode : Text → Option (MsgEnvelope U Value)) (kind : MsgKind) (ke payload : Text)
      (s : Database) (e : GatewayError)
      → (handle_sample json decode kind ke payload s).0 ≡ err e
      → (handle_sample json decode kind ke payload s).1 ≡ s
  unfolding handle_sample
  handle_sample-err decode kind ke payload s e h =
      raised-Keeps (parse_msg_keyexpr ke) _ _ s
        (λ p.
          required-Keeps (same_kind p.2 kind) _ _ s
            (raised-Keeps (decode payload) _ _ s (λ env. store-Keeps p.0 p.1.as_str p.2 p.3 env s)))
        e h

  module _ (slug : Text) (zid : Zid) (plain : Lacks b'/' slug) (canonical : IsCanonical zid.as_str)
      (s : Database) (d : Device) (org : Org) (found : device_of s zid.as_str ≡ some d)
      (home : find_row (λ (o : Org). o.id == d.org_id) s.orgs ≡ some org)
      (named : org.slug ≡ slug) where
    -- An event that a device publishes on its own key, with an envelope that decodes, is stored as
    -- `events::insert` stores it for that device under the topic it was published on, and the bus
    -- gets the message if that succeeds.
    pub handle_sample-msg_event :
        (decode : Text → Option (MsgEnvelope U Value)) (topic payload : Text)
        (env : MsgEnvelope U Value)
        → Lacks b'/' topic
        → decode payload ≡ some env
        → handle_sample json decode event (msg_event slug zid topic) payload s
          ≡ continue
              (insert_event json d.id topic env.ts env.content_type env.payload s)
              (λ id s. (ok (event_of json d.id d.org_id topic env id), s))
    unfolding handle_sample store persist same_kind
    handle_sample-msg_event decode topic payload env t e =
        rw
          (
            (parse_msg-msg_event slug zid plain canonical topic t).0,
            e,
            found,
            home,
            named,
            =t_refl slug,
          )
          refl
