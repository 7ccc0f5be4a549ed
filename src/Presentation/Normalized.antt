-- ===== src/Presentation/Normalized.antt =====
-- A presentation that was normalized is accepted as it is.
use mqtt_trust_gateway.Base.{
  ℕ, ◌≡◌, inl, inr, refl, true, Option, none, some, List, [], ◌∷◌, String, length, all, map, ok,
  Yields, Yields->>=, Yields-ok, Bool-cases, dec_text, arith,
}
use mqtt_trust_gateway.Presentation.{
  Given, missing, other, given, Palette, Presentation, GivenPalette, GivenPresentation,
  default_presentation, preset_names, is_color_digit, to_upper, is_color, normalize_color,
  normalize_palette, normalize_unit, normalize_choice, normalize_flag, normalize_preset,
  normalize_oled, normalize_presentation,
}

-- The same presentation, sent.
abbrev pub sent_palette : Palette → GivenPalette
sent_palette p = record {
  primary = some p.primary;
  background = some p.background;
  surface = some p.surface;
  received = some p.received;
  sent = some p.sent;
}

abbrev pub sent_again : Presentation → GivenPresentation
sent_again p = record {
  preset = given p.preset;
  oled = given p.oled;
  charts = record {
    unit = given p.charts.unit;
    days = some p.charts.days;
    refresh_seconds = some p.charts.refresh_seconds;
    show_failures = some p.charts.show_failures;
  };
  light = sent_palette p.light;
  dark = sent_palette p.dark;
}

to_upper-digit :
    (c : ℕ)
    → is_color_digit c ≡ true
    → (is_color_digit (to_upper c) ≡ true) × (to_upper (to_upper c) ≡ to_upper c)
to_upper-digit c h = (ground arith, ground arith)

length-map : (cs : List ℕ) → length (map to_upper cs) ≡ length cs
length-map [] = refl
length-map (c ∷ cs) = ground (arith, length-map cs)

map-to_upper :
    (cs : List ℕ)
    → all is_color_digit cs ≡ true
    → (all is_color_digit (map to_upper cs) ≡ true)
      × (map to_upper (map to_upper cs) ≡ map to_upper cs)
map-to_upper [] h = (refl, refl)
map-to_upper (c ∷ cs) h =
    let is_digit : is_color_digit c ≡ true = ground (arith, h) in
    let rest = map-to_upper cs (ground (arith, h)) in
    let first = to_upper-digit c is_digit in (rw first.0 rest.0, rw (first.1, rest.1) refl)

is_color-map :
    (t : List ℕ)
    → is_color t ≡ true
    → (is_color (map to_upper t) ≡ true) × (map to_upper (map to_upper t) ≡ map to_upper t)
unfolding is_color
is_color-map [] h = absurd (cc h)
is_color-map (c ∷ cs) h =
    let digits : all is_color_digit cs ≡ true = ground (arith, h) in
    let is_hash : c ≡ b'#' = ground (arith, h) in
    let six : length cs ≡ 6 = ground (arith, h) in
    let rest = map-to_upper cs digits in
    rw is_hash (rw (length-map cs, six, rest.0) refl, rw rest.1 refl)

normalize_color-again :
    (v : Option (List ℕ)) (t : List ℕ) → normalize_color v ≡ ok t → normalize_color (some t) ≡ ok t
unfolding normalize_color
normalize_color-again none t h = absurd (cc h)
normalize_color-again (some s) t h = elim (Bool-cases (is_color s)) [
  | inr bad ↦ absurd (ground (arith, bad, h))
  | inl good ↦
      let is_upper : map to_upper s ≡ t = ground (arith, good, h) in
      let again = is_color-map s good in rw⁻¹ is_upper (rw (again.0, again.1) refl)
]

normalize_choice-again :
    (ns : List ℕ) (v : Option ℕ) (n : ℕ)
    → normalize_choice ns v ≡ ok n
    → normalize_choice ns (some n) ≡ ok n
unfolding normalize_choice
normalize_choice-again ns none n h = absurd (cc h)
normalize_choice-again ns (some m) n h = ground (arith, h)

normalize_preset-again :
    (v : Given String) (name : String)
    → normalize_preset v ≡ ok name
    → normalize_preset (given name) ≡ ok name
unfolding normalize_preset preset_names
normalize_preset-again missing name h = ground (arith, h)
normalize_preset-again other name h = absurd (cc h)
normalize_preset-again (given m) name h = ground (arith, h)

abbrev IsFixedPalette : Palette → Type 0
IsFixedPalette p = normalize_palette (sent_palette p) ≡ ok p

normalize_palette-again : (g : GivenPalette) → Yields IsFixedPalette (normalize_palette g)
unfolding normalize_palette
normalize_palette-again g = Yields->>= IsFixedPalette (normalize_color g.primary) _ λ primary a.
    Yields->>= IsFixedPalette (normalize_color g.background) _ λ background b.
      Yields->>= IsFixedPalette (normalize_color g.surface) _ λ surface c.
        Yields->>= IsFixedPalette (normalize_color g.received) _ λ received d.
          Yields->>= IsFixedPalette (normalize_color g.sent) _ λ sent e.
            rw
              (
                normalize_color-again g.primary primary a,
                normalize_color-again g.background background b,
                normalize_color-again g.surface surface c,
                normalize_color-again g.received received d,
                normalize_color-again g.sent sent e,
              )
              refl

abbrev IsFixed : Presentation → Type 0
IsFixed p = normalize_presentation (given (sent_again p)) ≡ ok p

normalize_given-again : (g : GivenPresentation) → Yields IsFixed (normalize_presentation (given g))
unfolding normalize_presentation normalize_unit normalize_flag normalize_oled
normalize_given-again g = Yields->>= IsFixed (normalize_choice _ g.charts.days) _ λ days a.
    Yields->>= IsFixed (normalize_choice _ g.charts.refresh_seconds) _ λ refresh b.
      Yields->>= IsFixed (normalize_flag g.charts.show_failures) _ λ failures _.
        Yields->>= IsFixed (normalize_unit g.charts.unit) _ λ unit _.
          Yields->>= IsFixed (normalize_preset g.preset) _ λ preset c.
            Yields->>= IsFixed (normalize_oled g.oled) _ λ oled _.
              Yields->>= IsFixed (normalize_palette g.light) _ λ light d.
                Yields->>= IsFixed (normalize_palette g.dark) _ λ dark e.
                  rw
                    (
                      normalize_choice-again _ g.charts.days days a,
                      normalize_choice-again _ g.charts.refresh_seconds refresh b,
                      normalize_preset-again g.preset preset c,
                      Yields-ok IsFixedPalette _ light (normalize_palette-again g.light) d,
                      Yields-ok IsFixedPalette _ dark (normalize_palette-again g.dark) e,
                    )
                    refl

default_presentation-again : IsFixed default_presentation
unfolding normalize_presentation default_presentation normalize_unit normalize_flag normalize_oled
    normalize_choice normalize_preset preset_names normalize_palette normalize_color is_color
    dec_text
default_presentation-again = refl

-- A presentation that is normalized, or that stands for a missing one, is accepted when it is sent again,
-- and is then the same.
pub normalize_presentation-sent_again :
    (v : Given GivenPresentation) (p : Presentation)
    → normalize_presentation v ≡ ok p
    → normalize_presentation (given (sent_again p)) ≡ ok p
unfolding normalize_presentation
normalize_presentation-sent_again missing p h =
    let is_default : default_presentation ≡ p = ground (arith, h) in
    rw⁻¹ is_default default_presentation-again
normalize_presentation-sent_again other p h = absurd (cc h)
normalize_presentation-sent_again (given g) p h =
    Yields-ok IsFixed (normalize_presentation (given g)) p (normalize_given-again g) h
