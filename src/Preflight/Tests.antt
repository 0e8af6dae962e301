-- ===== src/Preflight/Tests.antt =====
-- A concrete preflight.
use scand.Url.Parse.{cut_scheme, cut_path}
use scand.Preflight.{parse_authority}
use scand.Prelude.{cut}
use scand.Prelude.{
  ℕ, ◌+◌, ◌≡◌, refl, true, false, none, some, [], ◌∷◌, codes, bytes_eq, if◌then◌else◌,
}
use scand.Env.{Net}
use scand.Ka2.Page.Outcome.{recorded}
use scand.Url.Hosts.{Inet}
use scand.Preflight.{Patterns, parse_host_port, probe_onec_odata}
use scand.Preflight.Safety.{IsSafe, probe_onec_odata-IsSafe}

-- One name, with an address in public.
abbrev inet : Inet
inet = record {
  pton4 = λ s. if bytes_eq s (codes "8.8.8.8") then some 0x08080808 else none;
  pton6 = λ s. none;
  resolve = λ s. if bytes_eq s (codes "base.example") then some (codes "8.8.8.8" ∷ []) else none;
}

abbrev patterns : Patterns
patterns = record { search = λ p t. true; matches = λ p t. t ∷ []; stoi = λ s. some 8080 }

abbrev server : Net ℕ
server = record {
  get = λ q n. (record { status_code = 200; text = codes "x" }, n + 1);
  stopped = λ n. (false, n);
}

host_runs :
    parse_host_port inet patterns (codes "https://[a]:8080/x")
    ≡ record { host = codes "a"; port = 8080 }
unfolding parse_host_port cut_scheme parse_authority cut_path cut
host_runs = refl

probe_onec_odata-IsSafe_example :
    IsSafe inet patterns server false false
      (codes "https://base.example/x")
      (codes "u")
      (codes "p")
      (probe_onec_odata inet patterns
        (recorded server)
        (codes "https://base.example/x")
        (codes "u")
        (codes "p")
        false
        20000
        false
        (0, []))
probe_onec_odata-IsSafe_example =
    probe_onec_odata-IsSafe inet patterns server (codes "https://base.example/x") (codes "u")
      (codes "p") false 20000 false 0
