-- ===== src/Perimeter/Tests.antt =====
-- The theorem on the checks at one request.
use mqtt_trust_gateway.Base.{◌≡◌, refl, true, false, ◌&&◌, ◌||◌, some, [], ◌∷◌, dec_text}
use mqtt_trust_gateway.Perimeter.{
  HttpRequest, Setting, passed, is_local, is_reading, has_allowed_origin, check_request,
}
use mqtt_trust_gateway.Perimeter.Mutations.{check_request_ok}

abbrev setting : Setting
setting = record {
  allowed_origins = "https://gw" ∷ [];
  origin_hostname = "gw";
  maintenance = false;
}

abbrev post : HttpRequest
post = record {
  method = "POST";
  secure = true;
  hostname = "gw";
  origin = some "https://gw";
  is_json = true;
  is_api = true;
}

post_writes : is_reading post.method ≡ false
unfolding dec_text
post_writes = refl

post_passes : check_request setting post ≡ passed
unfolding check_request dec_text
post_passes = refl

check_request_ok_example :
    ((true || (is_local "gw" && is_local "gw")) ≡ true)
    × (has_allowed_origin setting (some "https://gw") ≡ true)
    × (true ≡ true)
    × ((true && false) ≡ false)
check_request_ok_example = check_request_ok setting post post_writes post_passes
