-- ===== src/Validate/Name.antt =====
-- The characters of a reservation's or a deployment's name (`name` in validate.rs).
use Prim.Native.Char.{Char, code}
use Prim.Native.String.{String, [], ◌∷◌, len}
use mathlib.Core.Bool.{Bool, true, false, not, ◌&&◌, ◌||◌}
use provisioned_throughput.Base.Tests.{leb}

abbrev is_hyphen : Char → Bool
is_hyphen c = leb b'-' (code c) && leb (code c) b'-'

-- `b.is_ascii_lowercase() || b.is_ascii_digit() || b == b'-'`
abbrev is_name_char : Char → Bool
is_name_char c =
    (leb b'a' (code c) && leb (code c) b'z')
    || ((leb b'0' (code c) && leb (code c) b'9') || is_hyphen c)

-- `bytes().all(…)`: a byte of a character that is not ASCII fails, as its character does here.
unfoldable all_name_chars : String → Bool
all_name_chars [] = true
all_name_chars (c ∷ rest) = let more = all_name_chars rest in is_name_char c && more

-- `starts_with('-')` and `ends_with('-')`
unfoldable starts_hyphen : String → Bool
starts_hyphen [] = false
starts_hyphen (c ∷ rest) = is_hyphen c

unfoldable ends_hyphen : String → Bool
ends_hyphen [] = false
ends_hyphen (c ∷ []) = is_hyphen c
ends_hyphen (c ∷ d ∷ rest) = ends_hyphen (d ∷ rest)

-- The condition in `name`.
unfoldable pub is_name : String → Bool
unfolding all_name_chars starts_hyphen ends_hyphen
is_name s =
    leb 1 (len s)
    && (leb (len s) 63 && (all_name_chars s && (not (starts_hyphen s) && not (ends_hyphen s))))
