-- ===== src/Config/Names.antt =====
-- internal/config/validation.go: names in lower_snake_case.
use Prim.Native.Char.{code}
use Prim.Native.Nat.{ℕ}
use kube_insight.Prelude.{
  String, Bool, true, false, not, ◌&&◌, ◌||◌, Option, none, some, ◌==◌, eqb, leb, if◌then◌else◌,
}

abbrev pub between : ℕ → ℕ → ℕ → Bool
between low high n = leb low n && leb n high

-- The loop of isLowerSnakeName, after an underscore or not. In the bytes of a text that is not ASCII
-- every one is rejected, and so is every code point here.
unfoldable pub snake_from : Bool → String → Bool
snake_from after String.[] = not after
snake_from after (String.◌∷◌ c s) =
    let plain = snake_from false s in
    let score = snake_from true s in
    if between b'a' b'z' (code c) || between b'0' b'9' (code c)
    then plain
    else if eqb (code c) b'_'
    then (if after then false else score)
    else false

-- isLowerSnakeName
unfoldable pub is_lower_snake_name : String → Bool
unfolding snake_from
is_lower_snake_name String.[] = false
is_lower_snake_name (String.◌∷◌ c s) =
    if between b'a' b'z' (code c) then snake_from false (String.◌∷◌ c s) else false

-- validateConfigName
unfoldable pub validate_config_name : String → Option String
unfolding is_lower_snake_name
validate_config_name name =
    if name == ""
    then some "must not contain an empty name"
    else if not (is_lower_snake_name name)
    then some "must use lower_snake_case"
    else none
