-- ===== src/Presentation.antt =====
-- Presentation: admin-web/shared/presentation-preferences.js and the names of
-- admin-web/shared/theme-presets.js. A text is its list of code points.
pub mod Normalized
mod Tests
use mqtt_trust_gateway.Base.{
  ℕ, String, Bool, true, false, ◌&&◌, ◌||◌, Option, none, some, List, [], ◌∷◌, leb, ◌==◌, ◌===◌,
  ◌-◌, if◌then◌else◌, codes, length, all, any, map, Result, ok, err, ◌>>=◌, ◌>>◌, require,
}

-- A value that is undefined, of a type that is not expected, or as expected.
pub data Given {ℓ} (A : Type ℓ) : Type ℓ where
  missing other : Given A
  given : A → Given A

pub data ChartUnit : Type 0 where
  minute hour : ChartUnit

pub record Charts : Type 0 where
  pub unit : ChartUnit
  pub days : ℕ
  pub refresh_seconds : ℕ
  pub show_failures : Bool

pub record Palette : Type 0 where
  pub primary : List ℕ
  pub background : List ℕ
  pub surface : List ℕ
  pub received : List ℕ
  pub sent : List ℕ

pub record Presentation : Type 0 where
  pub preset : String
  pub oled : Bool
  pub charts : Charts
  pub light : Palette
  pub dark : Palette

-- What is sent: a number, a test or a text that is missing or of another type is `none`, as is a number
-- that is no natural one; a unit that is neither is `other`. `preset` and `oled` count as missing where they are `null`.
pub record GivenCharts : Type 0 where
  pub unit : Given ChartUnit
  pub days : Option ℕ
  pub refresh_seconds : Option ℕ
  pub show_failures : Option Bool

pub record GivenPalette : Type 0 where
  pub primary : Option (List ℕ)
  pub background : Option (List ℕ)
  pub surface : Option (List ℕ)
  pub received : Option (List ℕ)
  pub sent : Option (List ℕ)

pub record GivenPresentation : Type 0 where
  pub preset : Given String
  pub oled : Given Bool
  pub charts : GivenCharts
  pub light : GivenPalette
  pub dark : GivenPalette

unfoldable pub default_presentation : Presentation
default_presentation = record {
  preset = "custom";
  oled = false;
  charts = record { unit = minute; days = 7; refresh_seconds = 15; show_failures = true };
  light = record {
    primary = codes "#1867C0";
    background = codes "#F5F7FA";
    surface = codes "#FFFFFF";
    received = codes "#1867C0";
    sent = codes "#4CAF50";
  };
  dark = record {
    primary = codes "#2196F3";
    background = codes "#0E131B";
    surface = codes "#212121";
    received = codes "#2196F3";
    sent = codes "#4CAF50";
  };
}

-- The names that a preset may have: `custom`, `default` and those of `themePresets`.
unfoldable pub preset_names : List String
preset_names =
    "custom" ∷ "default" ∷ "dracula" ∷ "catppuccin" ∷ "tokyo-night" ∷ "gruvbox" ∷ "kanagawa"
    ∷ "rose-pine" ∷ "everforest" ∷ "github" ∷ "nightfox" ∷ "solarized" ∷ "one" ∷ "ayu" ∷ "nord"
    ∷ "tailwind-zinc" ∷ []

-- /[0-9a-f]/i
abbrev pub is_color_digit : ℕ → Bool
is_color_digit c =
    (leb b'0' c && leb c b'9') || (leb b'a' c && leb c b'f') || (leb b'A' c && leb c b'F')

abbrev pub to_upper : ℕ → ℕ
to_upper c = if leb b'a' c && leb c b'z' then c - 32 else c

-- /^#[0-9a-f]{6}$/i
unfoldable pub is_color : List ℕ → Bool
is_color [] = false
is_color (c ∷ cs) = (c == b'#') && (length cs == 6) && all is_color_digit cs

unfoldable pub normalize_color : Option (List ℕ) → Result (List ℕ)
normalize_color none = err 500 "Colors must use #RRGGBB format"
normalize_color (some t) =
    if is_color t then ok (map to_upper t) else err 500 "Colors must use #RRGGBB format"

unfoldable pub normalize_palette : GivenPalette → Result Palette
normalize_palette g = do
  primary ← normalize_color g.primary
  background ← normalize_color g.background
  surface ← normalize_color g.surface
  received ← normalize_color g.received
  sent ← normalize_color g.sent
  ok record {
    primary = primary;
    background = background;
    surface = surface;
    received = received;
    sent = sent;
  }

unfoldable pub normalize_unit : Given ChartUnit → Result ChartUnit
normalize_unit missing = ok minute
normalize_unit other = err 500 "Invalid chart preferences"
normalize_unit (given u) = ok u

unfoldable pub normalize_choice : List ℕ → Option ℕ → Result ℕ
normalize_choice ns none = err 500 "Invalid chart preferences"
normalize_choice ns (some n) =
    if any (λ (m : ℕ). m == n) ns then ok n else err 500 "Invalid chart preferences"

unfoldable pub normalize_flag : Option Bool → Result Bool
normalize_flag none = err 500 "Invalid chart preferences"
normalize_flag (some b) = ok b

unfoldable pub normalize_preset : Given String → Result String
normalize_preset missing = ok "custom"
normalize_preset other = err 500 "Invalid theme preset or OLED preference"
normalize_preset (given name) =
    if any (λ (n : String). n === name) preset_names
    then ok name
    else err 500 "Invalid theme preset or OLED preference"

unfoldable pub normalize_oled : Given Bool → Result Bool
normalize_oled missing = ok false
normalize_oled other = err 500 "Invalid theme preset or OLED preference"
normalize_oled (given b) = ok b

-- `normalizePresentation`
unfoldable pub normalize_presentation : Given GivenPresentation → Result Presentation
normalize_presentation missing = ok default_presentation
normalize_presentation other = err 500 "Invalid chart preferences"
normalize_presentation (given g) = do
  days ← normalize_choice (1 ∷ 3 ∷ 7 ∷ []) g.charts.days
  refresh ← normalize_choice (5 ∷ 15 ∷ 30 ∷ 60 ∷ []) g.charts.refresh_seconds
  failures ← normalize_flag g.charts.show_failures
  unit ← normalize_unit g.charts.unit
  preset ← normalize_preset g.preset
  oled ← normalize_oled g.oled
  light ← normalize_palette g.light
  dark ← normalize_palette g.dark
  ok record {
    preset = preset;
    oled = oled;
    charts = record {
      unit = unit;
      days = days;
      refresh_seconds = refresh;
      show_failures = failures;
    };
    light = light;
    dark = dark;
  }
