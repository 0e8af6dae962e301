-- ===== src/Preflight/Safety.antt =====
-- Whom the preflight asks, and when it says that the connection works.
use scand.Prelude.{
  ℕ, ◌<◌, ◌*◌, ◌≤◌, ◌≡◌, ◌⊎◌, inl, inr, refl, ◌&&◌, Bool, true, false, not, some, List, [], ◌∷◌,
  arith, Bytes, if◌then◌else◌, All, is_empty, length, Bool-cases, Option-cases, ltb, leb, ◌==◌,
}
use scand.Env.{HttpResponse, Request, Net}
use scand.Ka2.Page.Outcome.{Exchange, recorded}
use scand.Url.Hosts.{Inet}
use scand.Url.Normalize.{OnecUrlNormalizeOptions, normalize_onec_publication_url}
use scand.Preflight.{
  Patterns, ProbeResult, is_global_ip, is_private_or_loopback, is_loopback_hostname,
  parse_host_port, all_public, addresses_of, assert_public_destination, count_entity_sets,
  edmx_pattern, judged, meta_url, asked_metadata, probe_onec_odata,
}

module _ (inet : Inet) (patterns : Patterns) where
  -- The address is public, or an inner one where those are allowed.
  abbrev pub MayAsk : Bool → Bytes → Type 0
  MayAsk private addr =
      (is_global_ip inet patterns addr ≡ true)
      ⊎ ((private ≡ true) × (is_private_or_loopback inet patterns addr ≡ true))

  all_public_sound :
      (private : Bool) (addresses : List Bytes)
      → all_public inet patterns private addresses ≡ true
      → All (MayAsk private) addresses
  unfolding all_public
  all_public_sound private [] h = tt
  all_public_sound private (a ∷ addresses) h = elim (Bool-cases (is_global_ip inet patterns a)) [
    | inl q ↦ (inl q, all_public_sound private addresses (ground (arith, h, q)))
    | inr q ↦ (
      inr (ground (arith, h, q), ground (arith, h, q)),
      all_public_sound private addresses (ground (arith, h, q)),
    )
  ]

  -- The host of that address is the loopback, where that is allowed, or it has addresses and all of
  -- them may be asked.
  abbrev pub IsAllowed : Bool → Bool → Bytes → Type 0
  IsAllowed local private url =
      let host = (parse_host_port inet patterns url).host in
      ((local ≡ true) × (is_loopback_hostname inet patterns host ≡ true))
      ⊎ ((is_empty (addresses_of inet patterns host) ≡ false)
          × All (MayAsk private) (addresses_of inet patterns host))

  pub assert_public_destination_sound :
      (url : Bytes) (local private : Bool)
      → assert_public_destination inet patterns url local private ≡ true
      → IsAllowed local private url
  unfolding assert_public_destination
  assert_public_destination_sound url local private h =
      let host = (parse_host_port inet patterns url).host in
      let addresses = addresses_of inet patterns host in
      elim (Bool-cases (local && is_loopback_hostname inet patterns host)) [
        | inl q ↦ inl (ground (arith, q), ground (arith, q))
        | inr q ↦
            inr (ground (arith, h, q), all_public_sound private addresses (ground (arith, h, q)))
      ]

  -- The answer is a description of some resources.
  abbrev pub IsMetadata : HttpResponse → Type 0
  IsMetadata r =
      (0 < r.status_code)
      × (r.status_code < 300)
      × (length r.text ≤ 25 * 1024 * 1024)
      × (patterns.search (edmx_pattern inet patterns) r.text ≡ true)
      × (0 < (count_entity_sets inet patterns r.text).0)

  inverted :
      (b : Bool) (x y : ProbeResult)
      → x.ready ≡ false
      → (if b then x else y).ready ≡ true
      → (b ≡ false) × (y.ready ≡ true)
  inverted true x y n h = absurd (ground (arith, n, h))
  inverted false x y n h = (refl, h)

  judged_ready :
      (timeout_ms : ℕ) (r : HttpResponse) (result : ProbeResult)
      → result.ready ≡ false
      → (judged inet patterns timeout_ms r result).ready ≡ true
      → IsMetadata r
  unfolding judged
  judged_ready timeout_ms r result n h =
      let (a, h1) = inverted (r.status_code == 0) _ _ n h in
      let (b, h2) = inverted (r.status_code == 401) _ _ n h1 in
      let (c, h3) = inverted (r.status_code == 403) _ _ n h2 in
      let (d, h4) = inverted (r.status_code == 404) _ _ n h3 in
      let (e, h5) = inverted (leb 300 r.status_code && ltb r.status_code 400) _ _ n h4 in
      let (f, h6) = inverted (leb 400 r.status_code) _ _ n h5 in
      let (g, h7) = inverted (ltb (25 * 1024 * 1024) (length r.text)) _ _ n h6 in
      let (i, h8) = inverted (not (patterns.search (edmx_pattern inet patterns) r.text)) _ _ n h7 in
      let (j, h9) = inverted ((count_entity_sets inet patterns r.text).0 == 0) _ _ n h8 in
      (
        ground (arith, a),
        ground (arith, e, f),
        ground (arith, g),
        ground (arith, i),
        ground (arith, j),
      )

  module _ {W : Type 0} (net : Net W) where
    -- What a preflight has done: nothing, or one request to an address that was accepted and may be
    -- asked.
    pub record IsSafe (insecure private : Bool) (base_url username password : Bytes)
        (res : ProbeResult × (W × List Exchange)) : Type 0 where
      pub requests :
          (res.1.1 ≡ [])
          ⊎ ((url : Bytes) × (e : Exchange) × (res.1.1 ≡ e ∷ [])
              × (normalize_onec_publication_url inet
                    record { allow_insecure_http = insecure; allow_private_network = private }
                    base_url
                  ≡ some url)
              × IsAllowed insecure private url
              × (e.asked.url ≡ meta_url inet patterns url)
              × (e.asked.auth ≡ (username, password))
              × (res.0.ready ≡ true → IsMetadata e.answer))
      pub silent : res.1.1 ≡ [] → res.0.ready ≡ false

    -- A preflight sends nothing, and then does not say that the connection works, or it sends the name
    -- and password once, to the metadata of an address that was accepted and whose host may be asked;
    -- and it says that the connection works only of an answer below 300 that is a description of some
    -- resources and not too large.
    pub probe_onec_odata-IsSafe :
        (base_url username password : Bytes) (insecure : Bool) (timeout_ms : ℕ) (private : Bool)
        (w : W)
        → IsSafe insecure private base_url username password (
            probe_onec_odata inet patterns
              (recorded net)
              base_url
              username
              password
              insecure
              timeout_ms
              private
              (w, []))
    unfolding probe_onec_odata asked_metadata
    probe_onec_odata-IsSafe base_url username password insecure timeout_ms private w =
        let options : OnecUrlNormalizeOptions = record {
          allow_insecure_http = insecure;
          allow_private_network = private;
        } in
        elim (Option-cases (normalize_onec_publication_url inet options base_url)) [
          | inl q ↦ rw (probe_onec_odata, q) record { requests = inl refl; silent = λ e. refl }
          | inr (url, q) ↦
              elim (Bool-cases (assert_public_destination inet patterns url insecure private)) [
                | inr no_ ↦
                    rw (probe_onec_odata, q, no_) record { requests = inl refl; silent = λ e. refl }
                | inl yes_ ↦
                    rw (probe_onec_odata, q, yes_)
                      record {
                        requests = inr (
                          url,
                          record { asked = asked_of url; answer = (net.get (asked_of url) w).0 },
                          refl,
                          q,
                          assert_public_destination_sound url insecure private yes_,
                          refl,
                          refl,
                          judged_ready timeout_ms (net.get (asked_of url) w).0 _ refl,
                        );
                        silent = λ e. cc;
                      }
              ]
        ]
      where
        asked_of : Bytes → Request
        asked_of url = record {
          url = meta_url inet patterns url;
          params = [];
          auth = (username, password);
          timeout = timeout_ms;
        }
