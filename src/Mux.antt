-- ===== src/Mux.antt =====
-- What the program uses of `http.ServeMux`: patterns with one path each, with or without a method.
-- A path comes clean, as the mux redirects any other, and the method is not CONNECT. No two of the
-- patterns overlap, so that none goes before another.
use external_dns_iij_dpf_web.Base.{
  Bool, List, Option, [], eq_list, eq_ℕ, if◌then◌else◌, none, not, some, true, ◌&&◌, ◌==◌, ◌||◌,
  ◌∷◌,
}
use external_dns_iij_dpf_web.Base.Int.{eq_ℤ}
use external_dns_iij_dpf_web.Base.Text.{Text, codes}
use external_dns_iij_dpf_web.Dnsname.Name.{eq_name}
use external_dns_iij_dpf_web.Dpf.Rrtype.{eq_rrtype}
use external_dns_iij_dpf_web.Dpf.Wire.{eq_merge_key}
use external_dns_iij_dpf_web.Telemetry.Metrics.{eq_attributes}

pub record Pattern (H : Type 0) : Type 0 where
  pub method : Option Text
  pub path : Text
  pub handler : H

pub data Match (H : Type 0) : Type 0 where
  matching : H → Match H
  method_not_allowed not_found : Match H

-- A pattern with GET is for HEAD as well.
abbrev pub method_fits : Option Text → Text → Bool
method_fits none method = true
method_fits (some m) method = m == method || (m == codes "GET" && method == codes "HEAD")

-- A path that only other methods have is not unknown.
abbrev pub other_method : {H : Type 0} → Match H → Match H
other_method (matching h) = matching h
other_method method_not_allowed = method_not_allowed
other_method not_found = method_not_allowed

unfoldable pub match_pattern : {H : Type 0} → List (Pattern H) → Text → Text → Match H
match_pattern [] method path = not_found
match_pattern (p ∷ ps) method path =
    let rest = match_pattern ps method path in
    if not (p.path == path)
    then rest
    else if method_fits p.method method
    then matching p.handler
    else other_method rest
