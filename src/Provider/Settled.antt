-- ===== src/Provider/Settled.antt =====
-- Lemmas on `clampTTL` of internal/provider/adjust.go.
use external_dns_iij_dpf_web.Base.{arith, suc, true, zero, ◌↔◌, ◌≡◌}
use external_dns_iij_dpf_web.Base.Int.{negsuc, pos, ℤ}
use external_dns_iij_dpf_web.Provider.Adjust.{clamp_ttl}
use external_dns_iij_dpf_web.Provider.Validate.{valid_ttl}

-- The TTL that adjusting a record answers passes the check of the format, and is the record's own
-- exactly if that passes it already.
clamp_ttl-valid :
    (ttl : ℤ)
    → (valid_ttl (clamp_ttl ttl) ≡ true) × ((clamp_ttl ttl ≡ ttl) ↔ (valid_ttl ttl ≡ true))
unfolding clamp_ttl
clamp_ttl-valid (pos zero) = ground arith
clamp_ttl-valid (pos (suc n)) = ground arith
clamp_ttl-valid (negsuc n) = ground arith
