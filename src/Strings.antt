-- ===== src/Strings.antt =====
-- What the code uses of Go's package strings.
use send_flow_backend.Prelude.{String, ◌&&◌, if◌then◌else◌}
use send_flow_backend.Prelude.Text.{str_eq}
use send_flow_backend.Events.{is_space}
use Prim.Native.Char.{code}

unfoldable trim_left : String → String
unfolding is_space
trim_left String.[] = ""
trim_left (String.◌∷◌ c s) = if is_space (code c) then trim_left s else String.◌∷◌ c s

unfoldable trim_right : String → String
unfolding is_space
trim_right String.[] = ""
trim_right (String.◌∷◌ c s) =
    let rest = trim_right s in if is_space (code c) && str_eq rest "" then "" else String.◌∷◌ c rest

-- `strings.TrimSpace`.
unfoldable pub trim_space : String → String
unfolding trim_left trim_right
trim_space s = trim_right (trim_left s)
