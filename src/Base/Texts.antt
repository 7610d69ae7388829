-- ===== src/Base/Texts.antt =====
-- Strings as the source's standard library has them: their length in bytes, and `trim`.
use Prim.Native.Nat.{ℕ, zero, suc, ◌+◌}
use Prim.Native.Char.{Char, code}
use Prim.Native.String.{String, [], ◌∷◌}
use mathlib.Core.Bool.{Bool, true, ◌||◌, ◌&&◌}
use provisioned_throughput.Base.Tests.{leb, ltb, nat_beq, if◌then◌else◌}

-- `char::len_utf8`
abbrev len_utf8 : Char → ℕ
len_utf8 c =
    if ltb (code c) 128
    then 1
    else if ltb (code c) 2048
    then 2
    else if ltb (code c) 65536
    then 3
    else 4

-- `str::len`
unfoldable pub byte_len : String → ℕ
byte_len [] = 0
byte_len (c ∷ rest) = len_utf8 c + byte_len rest

-- `char::is_whitespace`: Unicode's White_Space.
unfoldable is_whitespace : Char → Bool
is_whitespace c =
    let n = code c in
    (leb 9 n && leb n 13)
    || (nat_beq n 32
        || (nat_beq n 133
            || (nat_beq n 160
                || (nat_beq n 5760
                    || ((leb 8192 n && leb n 8202)
                        || (nat_beq n 8232
                            || (nat_beq n 8233
                                || (nat_beq n 8239 || (nat_beq n 8287 || nat_beq n 12288)))))))))

unfoldable trim_start : String → String
unfolding is_whitespace
trim_start [] = []
trim_start (c ∷ rest) = let more = trim_start rest in if is_whitespace c then more else c ∷ rest

unfoldable is_blank : String → Bool
unfolding is_whitespace
is_blank [] = true
is_blank (c ∷ rest) = let more = is_blank rest in is_whitespace c && more

unfoldable trim_end : String → String
unfolding is_blank
trim_end [] = []
trim_end (c ∷ rest) = let more = trim_end rest in if is_blank (c ∷ rest) then [] else c ∷ more

-- `str::trim`
unfoldable pub trim : String → String
unfolding trim_start trim_end
trim s = trim_end (trim_start s)

-- `chars().take(n).collect()`
unfoldable pub take_chars : ℕ → String → String
take_chars zero s = []
take_chars (suc n) [] = []
take_chars (suc n) (c ∷ rest) = c ∷ take_chars n rest
