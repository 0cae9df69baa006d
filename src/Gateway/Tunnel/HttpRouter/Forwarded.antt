-- ===== src/Gateway/Tunnel/HttpRouter/Forwarded.antt =====
-- The bytes that the router reads to find the Host header go to the device before the others.
use codeless_workspace.Base.{
  ℕ, ◌≤◌, ◌≡◌, refl, sym, ap, ◌∙◌, ◌≢◌, inl, inr, Bool, true, Option, none, some, List, [], ◌∷◌,
  ◌++◌, arith, ltb, if◌then◌else◌, Bool-cases, Text, All, length, some_inj, drop, All-append_right,
  subst,
}
use codeless_workspace.Core.Bridge.{pump_down, ReadResult, pump_up}
use codeless_workspace.Core.Bridge.Bytes.{
  concat, is_data, received, is_end, reads_of, pump_down-pump_up,
}
use codeless_workspace.Gateway.Api.Streams.Isolation.{none-some}
use codeless_workspace.Gateway.Error.{
  GatewayError, ok, Result, err, bad_request, header_too_long, missing_host,
}
use codeless_workspace.Gateway.Exec.Steps.{ok_inj}
use codeless_workspace.Gateway.Tunnel.HttpRouter.{
  read_host, parse_host_header, header_limit, has_double_crlf, arrived,
}
use codeless_workspace.Gateway.Tunnel.HttpRouter.Bridged.{published_with}
use mathlib.Core.List.{append-nil, append_assoc}

-- The bytes read and how they were: those of a first part of the reads, and some.
Consumed : List ℕ → List (List ℕ) → List ℕ → Type 0
Consumed before reads prefix =
    (used : List (List ℕ)) × (rest : List (List ℕ)) × (reads ≡ used ++ rest)
    × (prefix ≡ before ++ concat used)
    × (is_data prefix ≡ true)

err-ok : {A : Type 0} {e : GatewayError} {a : A} → Result.err e ≢ ok a
err-ok e = cc

too_long :
    (before : List ℕ) (x : Result (Text × List ℕ)) (r : Text × List ℕ)
    → (if ltb header_limit (length before) then err (bad_request header_too_long) else x) ≡ ok r
    → x ≡ ok r
too_long before x r h = elim (Bool-cases (ltb header_limit (length before))) [
  | inl long ↦ absurd (err-ok {e = bad_request header_too_long} (sym (rw long refl) ∙ h))
  | inr short ↦ sym (rw short refl) ∙ h
]

-- The step of the loop, by what the round gives.
one_more :
    (before next : List ℕ) (reads : List (List ℕ)) (prefix : List ℕ)
    → Consumed (before ++ next) reads prefix
    → Consumed before (next ∷ reads) prefix
unfolding Consumed concat
one_more before next reads prefix (used, rest, reads_are, bytes, some_bytes) = (
  next ∷ used,
  rest,
  ap (λ rs. next ∷ rs) reads_are,
  bytes ∙ append_assoc before next (concat used),
  some_bytes,
)

append-is_data : (before next : List ℕ) → is_data next ≡ true → is_data (before ++ next) ≡ true
unfolding is_data
append-is_data [] next h = h
append-is_data (b ∷ before) next h = refl

this_round :
    (before next : List ℕ) (reads : List (List ℕ)) (prefix : List ℕ)
    → is_data next ≡ true
    → prefix ≡ before ++ next
    → Consumed before (next ∷ reads) prefix
unfolding Consumed concat
this_round before next reads prefix h e = (
  next ∷ [],
  reads,
  refl,
  e ∙ ap (λ n. before ++ n) (sym (append-nil next)),
  ap is_data e ∙ append-is_data before next h,
)

round :
    (before next : List ℕ) (reads : List (List ℕ)) (rest : Result (Text × List ℕ))
    (o : Option (Result (Text × List ℕ))) (host : Text) (prefix : List ℕ) (found : Option Text)
    → is_data next ≡ true
    → arrived found (before ++ next) ≡ o
    → (rest ≡ ok (host, prefix) → Consumed (before ++ next) reads prefix)
    → elim o as (λ _. Result (Text × List ℕ)) [ some r ↦ r | none ↦ rest ] ≡ ok (host, prefix)
    → Consumed before (next ∷ reads) prefix
unfolding arrived
round before next reads rest none host prefix found d e more h =
    one_more before next reads prefix (more h)
round before next reads rest (some r) host prefix (some t) d e more h =
    this_round before next reads prefix d (sym (ap (λ x. x.1) (ok_inj (some_inj e ∙ h))))
round before next reads rest (some r) host prefix none d e more h =
    elim (Bool-cases (has_double_crlf (before ++ next))) [
      | inl end ↦
          absurd (err-ok {e = bad_request missing_host} (some_inj (sym (rw end refl) ∙ e) ∙ h))
      | inr open_yet ↦ absurd (none-some (sym (rw open_yet refl) ∙ e))
    ]

read_host-Consumed :
    (before : List ℕ) (reads : List (List ℕ)) (host : Text) (prefix : List ℕ)
    → read_host before reads ≡ ok (host, prefix)
    → Consumed before reads prefix
unfolding read_host is_data
read_host-Consumed before [] host prefix h = absurd (err-ok (too_long before _ _ h))
read_host-Consumed before ([] ∷ reads) host prefix h = absurd (err-ok (too_long before _ _ h))
read_host-Consumed before ((b ∷ bs) ∷ reads) host prefix h =
    round before (b ∷ bs) reads (read_host (before ++ (b ∷ bs)) reads) _ host prefix
      (parse_host_header (before ++ (b ∷ bs))) refl refl
      (read_host-Consumed (before ++ (b ∷ bs)) reads host prefix) (too_long before _ _ h)

concat-append : (cs ds : List Text) → concat (cs ++ ds) ≡ concat cs ++ concat ds
unfolding concat
concat-append [] ds = refl
concat-append (c ∷ cs) ds =
    ap (λ t. c ++ t) (concat-append cs ds) ∙ sym (append_assoc c (concat cs) (concat ds))

-- What the device writes of a prefix and of the reads after it.
all_written :
    (prefix : List ℕ) (rest : List Text) (e : ReadResult) (later : List (ReadResult × Bool))
    (late : List Text) (samples : List (Text × Bool)) (early : ℕ)
    → is_data prefix ≡ true
    → All (λ c. is_data c ≡ true) rest
    → is_end e ≡ true
    → early ≤ 1
    → (pump_down (
        received (
          drop early (
            published_with prefix (record {
              ends = record {
                publisher_declared = true;
                subscriber_declared = true;
                reads = reads_of rest ++ (e, true) ∷ later;
                samples = samples;
              };
              prefix_sent = true;
            })
            ++ late)))).0
      ≡ drop early (prefix ∷ rest)
unfolding published_with pump_up reads_of is_data
all_written [] rest e later late samples early some_bytes full ends few = cc
all_written (b ∷ prefix) rest e later late samples early some_bytes full ends few =
    ap (λ r. r.0)
      (pump_down-pump_up ((b ∷ prefix) ∷ rest) (refl, full) e later late early ends
        (omega (arith, few))).0

-- Where the router finds a Host header in the first reads of a connection, it puts the bytes of those
-- reads first and those of each later read after them. If the device subscribes before the first
-- put, all puts and writes succeed and the messages arrive, what it writes up to the end of the socket
-- are all the bytes of the connection in their order, those read for the header included; if it
-- subscribes only after that put, exactly the bytes read for the header are missing.
pub read_host-forwards :
    (reads : List (List ℕ)) (host : Text) (prefix : List ℕ)
    → read_host [] reads ≡ ok (host, prefix)
    → All (λ c. is_data c ≡ true) reads
    → (e : ReadResult) (later : List (ReadResult × Bool)) (late : List Text)
      (samples : List (Text × Bool)) (early : ℕ)
    → is_end e ≡ true
    → early ≤ 1
    → (used : List (List ℕ)) × (rest : List (List ℕ)) × (reads ≡ used ++ rest)
      × (prefix ≡ concat used)
      × (prefix ++ concat rest ≡ concat reads)
      × ((pump_down (
            received (
              drop early (
                published_with prefix (record {
                  ends = record {
                    publisher_declared = true;
                    subscriber_declared = true;
                    reads = reads_of rest ++ (e, true) ∷ later;
                    samples = samples;
                  };
                  prefix_sent = true;
                })
                ++ late)))).0
          ≡ drop early (prefix ∷ rest))
unfolding Consumed
read_host-forwards reads host prefix h full e later late samples early ends few =
    let (used, rest, reads_are, bytes, some_bytes) = read_host-Consumed [] reads host prefix h in
    (
      used,
      rest,
      reads_are,
      bytes,
      ap (λ p. p ++ concat rest) bytes ∙ sym (ap concat reads_are ∙ concat-append used rest),
      all_written prefix rest e later late samples early some_bytes
          (All-append_right (λ c. is_data c ≡ true) used rest
            (subst (All (λ c. is_data c ≡ true)) reads_are full))
          ends few,
    )
