-- ===== src/Gateway/Tunnel/HttpRouter/Cut.antt =====
-- The host that is read from the bytes that have arrived.
use codeless_workspace.Base.{
  ℕ, ◌<◌, ◌≡◌, refl, ap, ◌≢◌, false, none, some, List, [], ◌∷◌, ◌++◌, arith, ◌==◌, Text, codes, All,
  ◌>>=?◌, Lacks, All-append,
}
use codeless_workspace.Gateway.Error.{ok}
use codeless_workspace.Gateway.Tunnel.HttpRouter.{
  cr, lf, lines, after_host, host_in, trim, parse_host_header, read_host, arrived, from_utf8,
  picked,
}
use codeless_workspace.Gateway.Tunnel.HttpRouter.Utf8.{from_utf8_ascii}

abbrev pub crlf : Text
crlf = cr ∷ lf ∷ []

not_cr : (c : ℕ) → c ≢ cr → (c == cr) ≡ false
not_cr c ne = ground (arith, ne)

lines-append : (l s : Text) → Lacks cr l → lines false (l ++ (cr ∷ lf ∷ s)) ≡ l ∷ lines false s
unfolding lines
lines-append [] s h = refl
lines-append (c ∷ l) s h = rw (not_cr c h.0, lines-append l s h.1) refl

lines-Lacks : (l : Text) → Lacks cr l → lines false l ≡ l ∷ []
unfolding lines
lines-Lacks [] h = refl
lines-Lacks (c ∷ l) h = rw (not_cr c h.0, lines-Lacks l h.1) refl

module _ (c : ℕ) (l host : Text) (request : Lacks cr (c ∷ l)) (first : after_host (c ∷ l) ≡ none)
    (plain : Lacks cr host) where
  host_lines : Lacks cr (codes "Host:" ++ host)
  host_lines = All-append (λ x. x ≢ cr) (codes "Host:") host (omega arith) plain

  -- the host line, as it is and before another line
  found : (ls : List Text) → host_in ((c ∷ l) ∷ (codes "Host:" ++ host) ∷ ls) ≡ some (trim host)
  unfolding host_in after_host picked
  found ls = ap (λ o. picked o (host_in ((codes "Host:" ++ host) ∷ ls))) first

  -- After a request line, the host that is read from ASCII bytes is what follows `Host:`, trimmed,
  -- up to the end of the line if the line is ended, and else all that has arrived: a host that is
  -- cut by the end of a read is taken as it stands, whatever the next reads bring.
  pub parse_host_header_lem :
      All (λ b. b < 128) ((c ∷ l) ++ (cr ∷ lf ∷ (codes "Host:" ++ host)))
      → (parse_host_header ((c ∷ l) ++ (cr ∷ lf ∷ (codes "Host:" ++ host))) ≡ some (trim host))
        × ((t : Text)
            → All (λ b. b < 128) ((c ∷ l) ++ (cr ∷ lf ∷ ((codes "Host:" ++ host) ++ (cr ∷ lf ∷ t))))
            → parse_host_header ((c ∷ l) ++ (cr ∷ lf ∷ ((codes "Host:" ++ host) ++ (cr ∷ lf ∷ t))))
              ≡ some (trim host))
        × ((reads : List (List ℕ))
            → read_host [] (((c ∷ l) ++ (cr ∷ lf ∷ (codes "Host:" ++ host))) ∷ reads)
              ≡ ok (trim host, (c ∷ l) ++ (cr ∷ lf ∷ (codes "Host:" ++ host))))
  unfolding parse_host_header read_host arrived
  parse_host_header_lem ascii = (
    cut,
    λ t more.
        rw
          (
            from_utf8_ascii ((c ∷ l) ++ (cr ∷ lf ∷ ((codes "Host:" ++ host) ++ (cr ∷ lf ∷ t))))
                more,
            lines-append (c ∷ l) ((codes "Host:" ++ host) ++ (cr ∷ lf ∷ t)) request,
            lines-append (codes "Host:" ++ host) t host_lines,
          )
          (found (lines false t)),
    λ reads. rw cut refl,
  )
    where
      cut :
          (from_utf8 ((c ∷ l) ++ (cr ∷ lf ∷ (codes "Host:" ++ host))) >>=? λ text.
          host_in (lines false text))
          ≡ some (trim host)
      cut =
          rw
            (
              from_utf8_ascii ((c ∷ l) ++ (cr ∷ lf ∷ (codes "Host:" ++ host))) ascii,
              lines-append (c ∷ l) (codes "Host:" ++ host) request,
              lines-Lacks (codes "Host:" ++ host) host_lines,
            )
            (found [])
