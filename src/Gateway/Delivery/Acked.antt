-- ===== src/Gateway/Delivery/Acked.antt =====
-- What an acknowledgement on the wire records.
use codeless_workspace.Proto.Msg.Levels.{parse_cmd_result_iff}
use codeless_workspace.Base.{
  ℕ, ◌≡◌, refl, sym, ap, ◌∙◌, ◌≢◌, inl, inr, Bool, false, Option, some, Bool-cases, Text, ◌=t◌,
  =t_refl, =t_sound, is_some, is_none, ◌>>=?◌, Lacks, some_inj,
}
use codeless_workspace.Proto.Uuid.{Uuids}
use codeless_workspace.Proto.Zid.{Zid}
use codeless_workspace.Proto.Zid.Canonical.{IsCanonical}
use codeless_workspace.Proto.Keyexpr.{msg_cmd_ack, parse_msg_cmd_ack_keyexpr}
use codeless_workspace.Proto.Keyexpr.RoundTrip.{parse_ack-msg_cmd_ack}
use codeless_workspace.Proto.Msg.{CmdAck, cmd_result_str, CmdResult, parse_cmd_result}
use codeless_workspace.Gateway.Json.{Json}
use codeless_workspace.Gateway.Error.{Result, ok, err, bad_request, cmd_id_mismatch, GatewayError}
use codeless_workspace.Gateway.Exec.Steps.{raised-Keeps, required-Keeps, mapped-Keeps, Keeps}
use codeless_workspace.Gateway.Schema.{Database}
use codeless_workspace.Gateway.Db.CmdOutbox.{record_ack, coalesce}
use codeless_workspace.Gateway.Db.CmdOutbox.Effects.{row_of, record_ack_lem, record_ack-acknowledge}
use codeless_workspace.Gateway.Delivery.{Wire, handle_ack, ◌>>=◌, pure}

module _ (json : Json) (uuids : Uuids) (wire : Wire uuids.Uuid json.Value) where
  open uuids use {Uuid, to_string, parse_str, parse_str-to_string}

  apart :
      (ack : CmdAck Uuid) (u : Uuid)
      → ack.cmd_id ≢ u
      → (to_string ack.cmd_id =t to_string u) ≡ false
  apart ack u ne = elim (Bool-cases (to_string ack.cmd_id =t to_string u)) [
    | inl e ↦ absurd (
        ne (
          some_inj (
            sym (parse_str-to_string ack.cmd_id)
            ∙ ap parse_str (=t_sound (to_string ack.cmd_id) (to_string u) e)
            ∙ parse_str-to_string u)))
    | inr e ↦ e
  ]

  named : (r : CmdResult) → is_none (parse_cmd_result (cmd_result_str r)) ≡ false
  named r = ap is_none ((parse_cmd_result_iff (cmd_result_str r) r).1 refl)

  ok≠err : (b : Bool) (e : GatewayError) → Result.ok b ≢ err e
  ok≠err b e h = cc

  kept :
      (c : Text) (r : CmdResult) (detail : Option Text) (now : ℕ) (s : Database) (e : GatewayError)
      → (record_ack c (cmd_result_str r) detail now s).0 ≡ err e
      → (record_ack c (cmd_result_str r) detail now s).1 ≡ s
  kept c r detail now s e h = absurd (
      ok≠err (is_some (row_of s c)) e
        (sym (((record_ack_lem c (cmd_result_str r) detail now s).0 (named r)).0) ∙ h))

  -- An acknowledgement that is dropped changes nothing.
  pub handle_ack-Keeps :
      (ke payload : Text) (now : ℕ) (s : Database)
      → Keeps s (handle_ack json uuids wire ke payload now s)
  unfolding handle_ack record_ack
  handle_ack-Keeps ke payload now s = raised-Keeps (parse_msg_cmd_ack_keyexpr uuids ke) _ _ s (λ p.
      raised-Keeps (wire.decode_ack payload) _ _ s (λ ack.
        required-Keeps (to_string ack.cmd_id =t to_string p.2) (bad_request cmd_id_mismatch)
          (λ _.
            record_ack (to_string ack.cmd_id) (cmd_result_str ack.result) ack.detail now >>= λ _.
            pure tt)
          s
          (mapped-Keeps
            (record_ack (to_string ack.cmd_id) (cmd_result_str ack.result) ack.detail now s)
            (λ _. tt) s (λ e h. kept (to_string ack.cmd_id) ack.result ack.detail now s e h))))

  module _ (slug : Text) (zid : Zid) (plain : Lacks b'/' slug)
      (canonical : IsCanonical zid.as_str) where
    -- On the key of a command, with a slug without a slash and a canonical id, an acknowledgement
    -- whose body decodes to the same command is accepted, and the command's row, if there is one,
    -- is then acknowledged with the result and the detail of the body. A body that names another
    -- command is refused and changes nothing.
    pub handle_ack-msg_cmd_ack :
        (u : Uuid) (ack : CmdAck Uuid) (payload : Text) (now : ℕ) (s : Database)
        → wire.decode_ack payload ≡ some ack
        → (ack.cmd_id ≡ u
            → ((handle_ack json uuids wire (msg_cmd_ack uuids slug zid u) payload now s).0 ≡ ok tt)
              × (row_of
                    (handle_ack json uuids wire (msg_cmd_ack uuids slug zid u) payload now s).1
                    (to_string u)
                  ≡ (row_of s (to_string u) >>=? λ r. some (record r {
                    ack_at = some now;
                    ack_result = some (cmd_result_str ack.result);
                    ack_detail = ack.detail;
                    delivered_at = coalesce r.delivered_at now;
                  }))))
          × (ack.cmd_id ≢ u
              → handle_ack json uuids wire (msg_cmd_ack uuids slug zid u) payload now s
                ≡ (err (bad_request cmd_id_mismatch), s))
    unfolding handle_ack
    handle_ack-msg_cmd_ack u ack payload now s d = (
      λ e.
          rw
            (
              parsed,
              d,
              e,
              =t_refl (to_string u),
              record_ack-acknowledge (to_string u) (cmd_result_str ack.result) ack.detail now s
                  (named ack.result),
            )
            (
              refl,
              ap (λ db. row_of db (to_string u))
                    (sym (
                      ap (λ (r : Result Bool × Database). r.1)
                        (record_ack-acknowledge (to_string u) (cmd_result_str ack.result) ack.detail
                          now s (named ack.result))))
                  ∙ ((record_ack_lem (to_string u) (cmd_result_str ack.result) ack.detail now s).0
                      (named ack.result)).1,
            ),
      λ ne. rw (parsed, d, apart ack u ne) refl,
    )
      where
        parsed :
            parse_msg_cmd_ack_keyexpr uuids (msg_cmd_ack uuids slug zid u) ≡ some (slug, zid, u)
        parsed = parse_ack-msg_cmd_ack slug zid plain canonical uuids u

    -- The organisation and the device in the key are not looked at: an acknowledgement of a
    -- command is taken alike from the keys of any two devices, with canonical ids, of
    -- organisations without a slash in their slugs.
    pub handle_ack_any_sender :
        (slug' : Text) (zid' : Zid)
        → Lacks b'/' slug'
        → IsCanonical zid'.as_str
        → (u : Uuid) (payload : Text) (now : ℕ) (s : Database)
        → handle_ack json uuids wire (msg_cmd_ack uuids slug zid u) payload now s
          ≡ handle_ack json uuids wire (msg_cmd_ack uuids slug' zid' u) payload now s
    unfolding handle_ack
    handle_ack_any_sender slug' zid' plain' canonical' u payload now s =
        rw
          (
            parse_ack-msg_cmd_ack slug zid plain canonical uuids u,
            parse_ack-msg_cmd_ack slug' zid' plain' canonical' uuids u,
          )
          refl
