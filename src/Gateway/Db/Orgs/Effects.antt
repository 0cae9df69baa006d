-- ===== src/Gateway/Db/Orgs/Effects.antt =====
-- Which tables the making of an org in db/orgs.rs touches.
use codeless_workspace.Base.{ℕ, ◌≡◌, refl, arith, ◌==◌, Text, find_row}
use codeless_workspace.Gateway.Error.{Result, ok, err, not_found}
use codeless_workspace.Gateway.Exec.{continue, or_raise-state}
use codeless_workspace.Gateway.Schema.{Database, Org}
use codeless_workspace.Gateway.Schema.Inserts.{insert_org}
use codeless_workspace.Gateway.Db.Orgs.{insert, insert_or_taken, validate_slug, taken, get}

abbrev pub OrgsOnly : Database → Database → Type 0
OrgsOnly s s' = s' ≡ record s { orgs = s'.orgs }

insert_org-OrgsOnly :
    (slug name : Text) (epoch : ℕ) (s : Database) → OrgsOnly s (insert_org slug name epoch s).1
unfolding insert_org
insert_org-OrgsOnly slug name epoch s = ground arith

get_state : (id : ℕ) (s : Database) → (get id s).1 ≡ s
unfolding get
get_state id s = or_raise-state (find_row (λ (o : Org). o.id == id) s.orgs) not_found s

then_get : (s s' : Database) (r : Result ℕ) → OrgsOnly s s' → OrgsOnly s (continue (r, s') get).1
then_get s s' (ok id) h = rw (get_state id s') h
then_get s s' (err e) h = h

then_insert :
    (slug name : Text) (epoch : ℕ) (s : Database) (r : Result (Unit {0}))
    → OrgsOnly s (continue (r, s) (λ _ s. continue (insert_or_taken slug name epoch s) get)).1
unfolding insert_or_taken
then_insert slug name epoch s (ok u) =
    then_get s (insert_org slug name epoch s).1 (taken (insert_org slug name epoch s).0)
      (insert_org-OrgsOnly slug name epoch s)
then_insert slug name epoch s (err e) = refl

pub insert-OrgsOnly :
    (slug name : Text) (epoch : ℕ) (s : Database) → OrgsOnly s (insert slug name epoch s).1
unfolding insert
insert-OrgsOnly slug name epoch s = then_insert slug name epoch s (validate_slug slug)
