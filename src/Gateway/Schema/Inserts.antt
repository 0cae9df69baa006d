-- ===== src/Gateway/Schema/Inserts.antt =====
-- What an INSERT into a table of hackline/crates/hackline-gateway/migrations does, and which of the
-- table's constraints refuse it.
use codeless_workspace.Base.{
  ℕ, Bool, true, false, not, ◌&&◌, ◌||◌, Option, none, some, [], ◌∷◌, ◌++◌, ltb, leb, ◌==◌,
  if◌then◌else◌, Text, codes, ◌=t◌, length, is_some, is_none, find_row, fresh_rowid, ℤ, leb_ℤ,
}
use codeless_workspace.Gateway.Error.{ok, err, db, unique, foreign_key, check}
use codeless_workspace.Gateway.Exec.{Exec}
use codeless_workspace.Gateway.Schema.{
  Database, Org, UserRow, Device, Tunnel, AuditEntry, has_org, has_device,
}

slug_char : ℕ → Bool
slug_char c = (leb b'a' c && leb c b'z') || (leb b'0' c && leb c b'9')

-- slug GLOB '[a-z0-9][a-z0-9-]*': the `*` takes any text.
unfoldable pub glob_slug : Text → Bool
unfolding slug_char
glob_slug (a ∷ b ∷ rest) = slug_char a && (slug_char b || b == b'-')
glob_slug _ = false

unfoldable pub insert_org : Text → Text → ℕ → Exec Database ℕ
unfolding glob_slug find_row fresh_rowid ◌=t◌
insert_org slug name epoch s =
    if ltb (length slug) 1 || ltb 63 (length slug) || not (glob_slug slug)
    then (err (db check), s)
    else if is_some (find_row (λ (o : Org). o.slug =t slug) s.orgs)
    then (err (db unique), s)
    else let id = fresh_rowid (λ (o : Org). o.id) s.orgs in
      (
        ok id,
        record s {
          orgs = s.orgs ++ (record { id = id; slug = slug; name = name; created_at = epoch } ∷ []);
        },
      )

unfoldable pub insert_user : ℕ → Text → Text → Text → ℕ → Exec Database ℕ
unfolding find_row fresh_rowid ◌=t◌
insert_user org_id name role token_hash epoch s =
    if is_some (find_row (λ (u : UserRow). u.token_hash =t token_hash) s.users)
    then (err (db unique), s)
    else if has_org s org_id
    then (let id = fresh_rowid (λ (u : UserRow). u.user.id) s.users in
        (
          ok id,
          record s {
            users =
                s.users
                ++ (record {
                  user = record {
                    id = id;
                    org_id = org_id;
                    name = name;
                    role = role;
                    device_scope = codes "*";
                    tunnel_scope = codes "*";
                    expires_at = none;
                    created_at = epoch;
                    last_used_at = none;
                  };
                  token_hash = token_hash;
                }
                    ∷ []);
          },
        ))
    else (err (db foreign_key), s)

unfoldable pub insert_device : ℕ → Text → Text → ℕ → Option ℕ → Exec Database ℕ
unfolding find_row fresh_rowid ◌=t◌
insert_device org_id zid label created_at last_seen_at s =
    if is_some (find_row (λ (d : Device). d.zid =t zid) s.devices)
    then (err (db unique), s)
    else if has_org s org_id
    then (let id = fresh_rowid (λ (d : Device). d.id) s.devices in
        (
          ok id,
          record s {
            devices =
                s.devices
                ++ (record {
                  id = id;
                  org_id = org_id;
                  zid = zid;
                  label = label;
                  customer_id = none;
                  created_at = created_at;
                  last_seen_at = last_seen_at;
                }
                    ∷ []);
          },
        ))
    else (err (db foreign_key), s)

-- The CHECK on a tunnel's kind and its public side.
unfoldable pub tunnel_kind_fits : Text → Option Text → Option ℤ → Bool
unfolding ◌=t◌
tunnel_kind_fits kind hostname port =
    (kind =t codes "http" && is_some hostname && is_none port)
    || (kind =t codes "tcp" && is_some port && is_none hostname)

-- UNIQUE lets any number of NULLs in.
unfoldable pub same_text : Option Text → Option Text → Bool
unfolding ◌=t◌
same_text (some a) (some b) = a =t b
same_text _ _ = false

unfoldable pub same_port : Option ℤ → Option ℤ → Bool
same_port (some a) (some b) = leb_ℤ a b && leb_ℤ b a
same_port _ _ = false

unfoldable pub insert_tunnel : ℕ → Text → ℤ → Option Text → Option ℤ → ℕ → Exec Database ℕ
unfolding tunnel_kind_fits same_text same_port find_row fresh_rowid
insert_tunnel device_id kind local_port hostname port epoch s =
    if not (tunnel_kind_fits kind hostname port)
    then (err (db check), s)
    else if is_some (
        find_row
          (λ (t : Tunnel). same_text t.public_hostname hostname || same_port t.public_port port)
          s.tunnels)
    then (err (db unique), s)
    else if has_device s device_id
    then (let id = fresh_rowid (λ (t : Tunnel). t.id) s.tunnels in
        (
          ok id,
          record s {
            tunnels =
                s.tunnels
                ++ (record {
                  id = id;
                  device_id = device_id;
                  kind = kind;
                  local_port = local_port;
                  public_hostname = hostname;
                  public_port = port;
                  enabled = true;
                  created_at = epoch;
                }
                    ∷ []);
          },
        ))
    else (err (db foreign_key), s)

unfoldable pub null_or_known : (ℕ → Bool) → Option ℕ → Bool
null_or_known p none = true
null_or_known p (some id) = p id

unfoldable pub insert_audit : AuditEntry → Exec Database ℕ
unfolding find_row fresh_rowid null_or_known
insert_audit e s =
    if null_or_known (λ id. is_some (find_row (λ (u : UserRow). u.user.id == id) s.users)) e.user_id
      && null_or_known (has_device s) e.device_id
      && null_or_known (λ id. is_some (find_row (λ (t : Tunnel). t.id == id) s.tunnels)) e.tunnel_id
    then (let id = fresh_rowid (λ (a : AuditEntry). a.id) s.audit in
        (ok id, record s { audit = s.audit ++ (record e { id = id } ∷ []) }))
    else (err (db foreign_key), s)
