-- ===== src/Presentation/Tests.antt =====
-- A presentation with lower-case colors.
use mqtt_trust_gateway.Base.{◌≡◌, refl, true, false, some, codes, ok, err, List, ℕ, dec_text}
use mqtt_trust_gateway.Presentation.{
  missing, given, hour, Palette, Presentation, GivenPalette, GivenPresentation, preset_names,
  is_color, normalize_color, normalize_palette, normalize_unit, normalize_choice, normalize_flag,
  normalize_preset, normalize_oled, normalize_presentation,
}
use mqtt_trust_gateway.Presentation.Normalized.{sent_again, normalize_presentation-sent_again}

abbrev plain : List ℕ → GivenPalette
plain c = record {
  primary = some c;
  background = some c;
  surface = some c;
  received = some c;
  sent = some c;
}

abbrev chosen : GivenPresentation
chosen = record {
  preset = given "nord";
  oled = missing;
  charts = record {
    unit = given hour;
    days = some 3;
    refresh_seconds = some 30;
    show_failures = some true;
  };
  light = plain (codes "#abcdef");
  dark = plain (codes "#00ff99");
}

abbrev upper : List ℕ → Palette
upper c = record { primary = c; background = c; surface = c; received = c; sent = c }

abbrev kept : Presentation
kept = record {
  preset = "nord";
  oled = false;
  charts = record { unit = hour; days = 3; refresh_seconds = 30; show_failures = true };
  light = upper (codes "#ABCDEF");
  dark = upper (codes "#00FF99");
}

is_accepted : normalize_presentation (given chosen) ≡ ok kept
unfolding normalize_presentation normalize_unit normalize_flag normalize_oled normalize_choice
    normalize_preset preset_names normalize_palette normalize_color is_color dec_text
is_accepted = refl

short_color : normalize_color (some (codes "#fff")) ≡ err 500 "Colors must use #RRGGBB format"
unfolding normalize_color is_color
short_color = refl

normalize_presentation-sent_again_example :
    normalize_presentation (given (sent_again kept)) ≡ ok kept
normalize_presentation-sent_again_example =
    normalize_presentation-sent_again (given chosen) kept is_accepted
