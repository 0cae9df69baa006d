-- ===== src/Gateway/Tunnel/HttpRouter.antt =====
-- hackline/crates/hackline-gateway/src/tunnel/http_router.rs: how a connection finds its tunnel.
-- Bytes are numbers below 256, and text is its code points.
pub mod Utf8
pub mod Cut
pub mod Bridged
pub mod Forwarded
use codeless_workspace.Base.{
  ℕ, zero, suc, ◌+◌, ◌-◌, ◌*◌, ◌/◌, ◌%◌, ◌^◌, ◌≤◌, ◌<◌, min, max, String, ◌≡◌, refl, sym, ap, ◌∙◌,
  ◌≢◌, ◌↔◌, ◌⊎◌, inl, inr, Bool, true, false, not, ◌&&◌, ◌||◌, Option, none, some, List, [], ◌∷◌,
  ◌++◌, map, reverse, arith, ltb, leb, ◌==◌, if◌then◌else◌, Bool-cases, Option-cases, Text, codes,
  ◌=t◌, =t_iff, =t_refl, =t_sound, All, length, true-ne-false, is_some, is_none, unwrap_or, ◌>>=?◌,
  find_row,
}
use codeless_workspace.Gateway.Auth.Middleware.{strip_prefix}
use codeless_workspace.Gateway.Db.Tunnels.{route}
use codeless_workspace.Gateway.Error.{
  Result, ok, err, bad_request, header_too_long, preamble_closed, missing_host, no_tunnel_for_host,
}
use codeless_workspace.Gateway.Schema.{Database, Tunnel, Device, Org}
use codeless_workspace.Gateway.Tunnel.HttpRouter.Utf8.{from_utf8, to_utf8}

abbrev pub header_limit : ℕ
header_limit = 8 * 1024

abbrev pub cr : ℕ
cr = 13

abbrev pub lf : ℕ
lf = 10

abbrev pub grown : ℕ → List Text → List Text
grown c [] = (c ∷ []) ∷ []
grown c (l ∷ ls) = (c ∷ l) ∷ ls

-- `text.split("\r\n")`; the flag says that a carriage return is held back.
unfoldable pub lines : Bool → Text → List Text
lines false [] = [] ∷ []
lines true [] = (cr ∷ []) ∷ []
lines held (c ∷ s) =
    let rest = lines (c == cr) s in
    let more = if c == cr then rest else grown c rest in
    if held then (if c == lf then [] ∷ rest else grown cr more) else more

-- `char::is_whitespace`
unfoldable pub is_whitespace : ℕ → Bool
is_whitespace c =
    (leb 9 c && leb c 13)
    || c == 32
    || c == 133
    || c == 160
    || c == 5760
    || (leb 8192 c && leb c 8202)
    || c == 8232
    || c == 8233
    || c == 8239
    || c == 8287
    || c == 12288

trim_start : Text → Text
unfolding is_whitespace
trim_start [] = []
trim_start (c ∷ s) = let rest = trim_start s in if is_whitespace c then rest else c ∷ s

unfoldable pub trim : Text → Text
unfolding trim_start
trim s = reverse (trim_start (reverse (trim_start s)))

or_else : {A : Type 0} → Option A → Option A → Option A
or_else (some a) o = some a
or_else none o = o

-- The prefixes that are tried on a line.
unfoldable pub after_host : Text → Option Text
unfolding strip_prefix or_else
after_host line =
    or_else (strip_prefix (codes "Host:") line)
      (or_else (strip_prefix (codes "host:") line) (strip_prefix (codes "HOST:") line))

-- The host of a line, or else of the lines after it.
unfoldable pub picked : Option Text → Option Text → Option Text
unfolding trim
picked (some h) rest = some (trim h)
picked none rest = rest

unfoldable pub host_in : List Text → Option Text
unfolding after_host picked
host_in [] = none
host_in ([] ∷ ls) = none
host_in ((c ∷ l) ∷ ls) = let rest = host_in ls in picked (after_host (c ∷ l)) rest

unfoldable pub parse_host_header : List ℕ → Option Text
unfolding host_in lines from_utf8
parse_host_header buf = from_utf8 buf >>=? λ text. host_in (lines false text)

-- `find_double_crlf(…).is_some()`
unfoldable pub has_double_crlf : List ℕ → Bool
unfolding strip_prefix
has_double_crlf [] = false
has_double_crlf (b ∷ bs) =
    is_some (strip_prefix (cr ∷ lf ∷ cr ∷ lf ∷ []) (b ∷ bs)) || has_double_crlf bs

-- One round of the loop, on the bytes with the new ones: the host, with what was read.
unfoldable pub arrived : Option Text → List ℕ → Option (Result (Text × List ℕ))
unfolding has_double_crlf
arrived (some h) prefix = some (ok (h, prefix))
arrived none prefix = if has_double_crlf prefix then some (err (bad_request missing_host)) else none

-- The loop of `handle_connection`, on the bytes that each read brings; no bytes is the end.
unfoldable pub read_host : List ℕ → List (List ℕ) → Result (Text × List ℕ)
unfolding arrived parse_host_header
read_host prefix [] =
    if ltb header_limit (length prefix)
    then err (bad_request header_too_long)
    else err (bad_request preamble_closed)
read_host prefix ([] ∷ reads) =
    if ltb header_limit (length prefix)
    then err (bad_request header_too_long)
    else err (bad_request preamble_closed)
read_host prefix ((b ∷ bs) ∷ reads) =
    let rest = read_host (prefix ++ (b ∷ bs)) reads in
    if ltb header_limit (length prefix)
    then err (bad_request header_too_long)
    else elim (arrived (parse_host_header (prefix ++ (b ∷ bs))) (prefix ++ (b ∷ bs))) [
      | some r ↦ r
      | none ↦ rest
    ]

-- The row of the lookup: an enabled http tunnel of that host. The column holds bytes, which are
-- compared with those of the host.
unfoldable pub serves : Text → Tunnel → Bool
unfolding ◌=t◌ to_utf8
serves host t =
    t.enabled
    && t.kind =t codes "http"
    && unwrap_or t.public_hostname [] =t to_utf8 host
    && is_some t.public_hostname

unfoldable pub tunnel_for : Database → Text → Option (Tunnel × Device × Org)
unfolding serves find_row route
tunnel_for s host = find_row (λ t. serves host t && is_some (route s t)) s.tunnels >>=? λ t.
    route s t >>=? λ (d, o). some (t, d, o)
