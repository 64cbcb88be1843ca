-- ===== src/Samples.antt =====
-- Data that the examples of several parts share.
use oafse.Common.{◌≡◌, String, none, some, false, str_eq, if◌then◌else◌, arith, eq_iff}
use oafse.Domain.Url.{GoUrl, NetUrl, Url}

abbrev lower : String → String
lower s = if str_eq s "A.org" then "a.org" else s

pub lower_idem : (s : String) → lower (lower s) ≡ lower s
lower_idem s = ground (arith, eq_iff s "A.org")

abbrev pub parsed : String → GoUrl
parsed host = record {
  scheme = "https";
  opaque = "";
  user = none;
  host = host;
  path = "";
  raw_path = "";
  omit_host = false;
  force_query = false;
  raw_query = "";
  fragment = "";
  raw_fragment = "";
}

-- A library for URLs that are a host only, and for one with a scheme. It resolves a reference to
-- itself.
abbrev pub net : NetUrl
net = record {
  parse = λ s. if str_eq s "https://a.org" then some (parsed "a.org") else some (parsed s);
  string = λ u. u.host;
  hostname = λ u. u.host;
  resolve = λ base u. u;
  to_lower = lower;
  to_lower_idem = lower_idem;
}

abbrev pub home : Url
home = record { url = parsed "a.org"; parent = ""; try = 0 }
