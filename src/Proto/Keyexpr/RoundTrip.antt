-- ===== src/Proto/Keyexpr/RoundTrip.antt =====
-- What the parsers of keyexpr.rs read from the keys of its builders.
use codeless_workspace.Base.{
  ◌≡◌, refl, ap, ◌∙◌, ◌≢◌, none, some, List, [], ◌∷◌, ◌++◌, arith, split-Lacks, Text, codes, Lacks,
  split, split-ne-nil, join, join-split-replace,
}
use codeless_workspace.Proto.Zid.{Zid}
use codeless_workspace.Proto.Zid.Canonical.{IsCanonical, new-as_str}
use codeless_workspace.Proto.Uuid.{Uuids}
use codeless_workspace.Proto.Keyexpr.{
  under, msg_cmd, msg_cmd_ack, parse_msg_cmd_ack_keyexpr, topic_to_keyexpr_suffix, msg_event,
  msg_log, health, parse_health_keyexpr, parse_msg_keyexpr, some_rest, event, log,
}
use codeless_workspace.Proto.Keyexpr.Segments.{split-under, split_words}

some_rest_of_ne : {ss : List Text} → ss ≢ [] → some_rest ss ≡ some ss
unfolding some_rest
some_rest_of_ne {ss = []} h = absurd (h refl)
some_rest_of_ne {ss = s ∷ ss} h = refl

join-suffix :
    (topic : Text)
    → Lacks b'/' topic
    → join b'.' (split b'/' (topic_to_keyexpr_suffix topic)) ≡ topic
unfolding topic_to_keyexpr_suffix
join-suffix topic h = join-split-replace b'.' b'/' topic h

some_rest-suffix :
    (topic : Text)
    → some_rest (split b'/' (topic_to_keyexpr_suffix topic))
      ≡ some (split b'/' (topic_to_keyexpr_suffix topic))
some_rest-suffix topic = some_rest_of_ne (split-ne-nil b'/' (topic_to_keyexpr_suffix topic))

module _ (org : Text) (zid : Zid) (plain : Lacks b'/' org)
    (canonical : IsCanonical zid.as_str) where
  health_segments :
      split b'/' (health org zid) ≡ codes "hackline" ∷ org ∷ zid.as_str ∷ codes "health" ∷ []
  unfolding health
  health_segments =
      split-under plain canonical (codes "health")
      ∙ ap (λ r. codes "hackline" ∷ org ∷ zid.as_str ∷ r)
          (split-Lacks b'/' (codes "health") (omega arith))

  -- For an org without a slash and a canonical id, a health key is read back as its org and id.
  pub parse_health-health : parse_health_keyexpr (health org zid) ≡ some (org, zid)
  unfolding parse_health_keyexpr
  parse_health-health = rw (health_segments, new-as_str zid canonical)

  msg_segments :
      (word : Text) (rest : Text)
      → Lacks b'/' word
      → split b'/' (under org zid (codes "msg/" ++ (word ++ b'/' ∷ rest)))
        ≡ codes "hackline" ∷ org ∷ zid.as_str ∷ codes "msg" ∷ word ∷ split b'/' rest
  msg_segments word rest h =
      split-under plain canonical _
      ∙ ap (λ r. codes "hackline" ∷ org ∷ zid.as_str ∷ r)
          (split_words (codes "msg") word rest (omega arith) h)

  event_segments :
      (topic : Text)
      → split b'/' (msg_event org zid topic)
        ≡ codes "hackline"
          ∷ org
          ∷ zid.as_str
          ∷ codes "msg"
          ∷ codes "event"
          ∷ split b'/' (topic_to_keyexpr_suffix topic)
  unfolding msg_event
  event_segments topic = msg_segments (codes "event") (topic_to_keyexpr_suffix topic) (omega arith)

  log_segments :
      (topic : Text)
      → split b'/' (msg_log org zid topic)
        ≡ codes "hackline"
          ∷ org
          ∷ zid.as_str
          ∷ codes "msg"
          ∷ codes "log"
          ∷ split b'/' (topic_to_keyexpr_suffix topic)
  unfolding msg_log
  log_segments topic = msg_segments (codes "log") (topic_to_keyexpr_suffix topic) (omega arith)

  cmd_segments :
      (topic : Text)
      → split b'/' (msg_cmd org zid topic)
        ≡ codes "hackline"
          ∷ org
          ∷ zid.as_str
          ∷ codes "msg"
          ∷ codes "cmd"
          ∷ split b'/' (topic_to_keyexpr_suffix topic)
  unfolding msg_cmd
  cmd_segments topic = msg_segments (codes "cmd") (topic_to_keyexpr_suffix topic) (omega arith)

  -- For an org without a slash and a canonical id, an event key is read back as its org, id and
  -- dotted topic, if the topic has no slash; a log key likewise, as a log.
  pub parse_msg-msg_event :
      (topic : Text)
      → Lacks b'/' topic
      → (parse_msg_keyexpr (msg_event org zid topic) ≡ some (org, zid, event, topic))
        × (parse_msg_keyexpr (msg_log org zid topic) ≡ some (org, zid, log, topic))
  unfolding parse_msg_keyexpr
  parse_msg-msg_event topic h = (
    rw (
      event_segments topic,
      some_rest-suffix topic,
      new-as_str zid canonical,
      join-suffix topic h,
    ),
    rw (log_segments topic, some_rest-suffix topic, new-as_str zid canonical, join-suffix topic h),
  )

  -- A command key that the gateway publishes is never read as an event, a log or a health key.
  pub parse-msg_cmd :
      (topic : Text)
      → (parse_msg_keyexpr (msg_cmd org zid topic) ≡ none)
        × (parse_health_keyexpr (msg_cmd org zid topic) ≡ none)
  unfolding parse_msg_keyexpr parse_health_keyexpr
  parse-msg_cmd topic = (rw (cmd_segments topic), rw (cmd_segments topic))

  module _ (uuids : Uuids) where
    open uuids use {Uuid, to_string, parse_str, parse_str-to_string, to_string-Lacks}

    ack_segments :
        (u : Uuid)
        → split b'/' (msg_cmd_ack uuids org zid u)
          ≡ codes "hackline" ∷ org ∷ zid.as_str ∷ codes "msg" ∷ codes "cmd-ack" ∷ to_string u ∷ []
    unfolding msg_cmd_ack
    ack_segments u =
        msg_segments (codes "cmd-ack") (to_string u) (omega arith)
        ∙ ap (λ r. codes "hackline" ∷ org ∷ zid.as_str ∷ codes "msg" ∷ codes "cmd-ack" ∷ r)
            (split-Lacks b'/' (to_string u) (to_string-Lacks u))

    -- An acknowledgement key is read back as its org, id and command id.
    pub parse_ack-msg_cmd_ack :
        (u : Uuid)
        → parse_msg_cmd_ack_keyexpr uuids (msg_cmd_ack uuids org zid u) ≡ some (org, zid, u)
    unfolding parse_msg_cmd_ack_keyexpr
    parse_ack-msg_cmd_ack u = rw (ack_segments u, new-as_str zid canonical, parse_str-to_string u)
