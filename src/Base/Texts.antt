-- ===== src/Base/Texts.antt =====
-- What the source uses of JavaScript's strings. `toLowerCase` and `trim` follow the Unicode tables
-- of the runtime: they are the fields of a parameter, about which nothing is assumed.
use Prim.Native.String.{String}
use mathlib.Core.Bool.{Bool, not}
use mathlib.Core.Option.{Option, none, some}
use text.Mathlib.Text.{find?}
use email_to_telegram.Base.Tests.{is_some, str_eq}
use mathlib.Core.Bool.{true, false}

pub record TextOps : Type 0 where
  pub to_lower : String → String
  pub trim : String → String

-- `s.includes(t)`
abbrev pub includes : String → String → Bool
includes s t = is_some (find? s t)

-- Whether a text, or null, is truthy: neither null nor "".
abbrev pub is_truthy : Option String → Bool
is_truthy none = false
is_truthy (some s) = not (str_eq s "")

-- `a === b` of two texts, either of which may be null.
abbrev pub opt_str_eq : Option String → Option String → Bool
opt_str_eq none none = true
opt_str_eq none (some t) = false
opt_str_eq (some s) none = false
opt_str_eq (some s) (some t) = str_eq s t

-- `o === s` where `o` may be null.
abbrev pub is_text : Option String → String → Bool
is_text none t = false
is_text (some s) t = str_eq s t
