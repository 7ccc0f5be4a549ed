-- ===== src/Perimeter/Mutations.antt =====
-- What a request that changes something has to bring.
use mqtt_trust_gateway.Base.{◌≡◌, true, false, ◌&&◌, ◌||◌, arith}
use mqtt_trust_gateway.Perimeter.{
  HttpRequest, Setting, passed, is_local, is_reading, has_allowed_origin, check_request,
}

-- A request that is no reading one and passes the checks came by HTTPS or locally, names an allowed
-- origin, is JSON, and, below /api, came while no update was in progress.
pub check_request_ok :
    (e : Setting) (r : HttpRequest)
    → is_reading r.method ≡ false
    → check_request e r ≡ passed
    → ((r.secure || (is_local r.hostname && is_local e.origin_hostname)) ≡ true)
      × (has_allowed_origin e r.origin ≡ true)
      × (r.is_json ≡ true)
      × ((r.is_api && e.maintenance) ≡ false)
unfolding check_request
check_request_ok e r writes h = ground (arith, writes, h)
