-- ===== src/Prelude/Texts.antt =====
-- The functions of Go's `strings` package that the program calls, over texts of whole characters.
use ramify.Prelude.{String, ◌-◌, Bool, ◌&&◌, leb, if◌then◌else◌, str_eq}
use Prim.Native.String.{len, slice}

unfoldable pub has_prefix : String → String → Bool
has_prefix s p = str_eq (slice s 0 (len p)) p

unfoldable pub has_suffix : String → String → Bool
has_suffix s p = leb (len p) (len s) && str_eq (slice s (len s - len p) (len s)) p

unfoldable pub trim_prefix : String → String → String
unfolding has_prefix
trim_prefix s p = if has_prefix s p then slice s (len p) (len s) else s

unfoldable pub trim_suffix : String → String → String
unfolding has_suffix
trim_suffix s p = if has_suffix s p then slice s 0 (len s - len p) else s
