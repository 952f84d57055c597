-- ===== src/Base/Strip.antt =====
-- `text.strip()`, as the routes and the enforcer call it.
use Prim.Native.Char.{code}
use slot_booking.Base.{ℕ, String, Bool, ◌&&◌, ◌||◌, leb, ◌==◌, if◌then◌else◌}
use slot_booking.Base.Text.{str_eq}

-- Python's `str.isspace` of a character, by its code.
is_between : ℕ → ℕ → ℕ → Bool
is_between low high n = leb low n && leb n high

is_space : ℕ → Bool
unfolding is_between
is_space n =
    is_between 9 13 n
    || (is_between 28 32 n
        || (n == 133
            || (n == 160
                || (n == 5760
                    || (is_between 8192 8202 n
                        || (is_between 8232 8233 n || (n == 8239 || (n == 8287 || n == 12288))))))))

lstrip : String → String
unfolding is_space
lstrip String.[] = ""
lstrip (String.◌∷◌ c s) = let rest = lstrip s in if is_space (code c) then rest else String.◌∷◌ c s

rstrip : String → String
unfolding is_space
rstrip String.[] = ""
rstrip (String.◌∷◌ c s) =
    let rest = rstrip s in if is_space (code c) && str_eq rest "" then "" else String.◌∷◌ c rest

unfoldable pub strip : String → String
unfolding lstrip rstrip
strip text = rstrip (lstrip text)
