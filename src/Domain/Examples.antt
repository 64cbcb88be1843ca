-- ===== src/Domain/Examples.antt =====
-- The theorems about the domain at small inputs.
use oafse.Common.{◌≡◌, ◌↔◌, some, none, false, refl, arith}
use oafse.Common.Int.{pos}
use oafse.Domain.Url.{GoUrl, NetUrl, normalize}
use oafse.Domain.Url.Normal.{AreAlike, normalize_iff}
use oafse.Domain.Retry.{CrawlConfig, calc_retry_time}
use oafse.Domain.Retry.Exact.{calc_retry_time_exact}

-- A library that knows only lower-case hosts.
abbrev net : NetUrl
net = record {
  parse = λ s. none;
  string = λ u. u.host;
  hostname = λ u. u.host;
  resolve = λ base u. u;
  to_lower = λ s. s;
  to_lower_idem = λ s. refl;
}

abbrev docs : GoUrl
docs = record {
  scheme = "https";
  opaque = "";
  user = some "me";
  host = "a.org";
  path = "/docs//";
  raw_path = "";
  omit_host = false;
  force_query = false;
  raw_query = "q=1";
  fragment = "top";
  raw_fragment = "";
}

abbrev bare_docs : GoUrl
bare_docs = record docs { path = "/docs"; raw_query = ""; user = none }

normalize_iff_example : (normalize net docs ≡ normalize net bare_docs) ↔ (
    (docs.scheme ≡ bare_docs.scheme)
    × (docs.opaque ≡ bare_docs.opaque)
    × (net.to_lower docs.host ≡ net.to_lower bare_docs.host)
    × AreAlike docs.path bare_docs.path
    × (docs.raw_path ≡ bare_docs.raw_path)
    × (docs.omit_host ≡ bare_docs.omit_host))
normalize_iff_example = normalize_iff net docs bare_docs

normal_docs : (normalize net docs).path ≡ "/docs"
unfolding normalize
normal_docs = refl

-- Five tries, and a second between the first two.
abbrev conf : CrawlConfig
conf = record {
  workers_count = 4;
  try_lim = pos 5;
  try_base_interval = 1_000_000_000;
  health_check_worry_threshold = 60_000_000_000;
}

calc_retry_time_exact_example : calc_retry_time (λ n. 0) (pos 7) 3 conf ≡ some (pos 8_000_000_007)
calc_retry_time_exact_example =
    calc_retry_time_exact (λ n. 0) (pos 7) 3 5 conf refl (omega arith) (omega arith)
